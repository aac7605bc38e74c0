-- ===== src/Sources/Mode.antt =====
-- The modes of a synchronisation and the operation that each asks of a source.
use app_catalogo.Common.{
  String, ◌≡◌, refl, ◌↔◌, ◌⊎◌, inl, inr, Bool, true, false, ◌||◌, str_eq, eq_iff, if◌then◌else◌,
  arith,
}
use app_catalogo.Common.Go.{Result, ok, err, Error, message}

pub data SyncMode : Type 0 where
  sync_mode_delta sync_mode_full : SyncMode

unfoldable pub mode_string : SyncMode → String
mode_string sync_mode_delta = "delta"
mode_string sync_mode_full = "full"

unfoldable pub parse_sync_mode : String → Result Error SyncMode
parse_sync_mode v =
    if str_eq v "" || str_eq v "delta"
    then ok sync_mode_delta
    else if str_eq v "full"
    then ok sync_mode_full
    else err (message "modo de sync inválido")

pub data Operation : Type 0 where
  full_sync sync : Operation

-- `syncFunc`; the flag tells whether the source is a FullSyncer.
unfoldable pub sync_func : Bool → SyncMode → Operation
sync_func true sync_mode_full = full_sync
sync_func false sync_mode_full = sync
sync_func full_syncer sync_mode_delta = sync

-- The texts that ask for a mode.
abbrev pub Asks : String → SyncMode → Type 0
Asks v sync_mode_delta = (v ≡ "") ⊎ (v ≡ "delta")
Asks v sync_mode_full = v ≡ "full"

parse_sound : (v : String) (m : SyncMode) → parse_sync_mode v ≡ ok m → Asks v m
unfolding parse_sync_mode
parse_sound v sync_mode_delta h = ground (arith, eq_iff v "", eq_iff v "delta", eq_iff v "full")
parse_sound v sync_mode_full h = ground (arith, eq_iff v "", eq_iff v "delta", eq_iff v "full")

parse_complete : (v : String) (m : SyncMode) → Asks v m → parse_sync_mode v ≡ ok m
unfolding parse_sync_mode
parse_complete v sync_mode_delta (inl e) = rw e refl
parse_complete v sync_mode_delta (inr e) = rw e refl
parse_complete v sync_mode_full e = rw e refl

-- The text of a mode is read as that mode, the empty text as delta, and no other text is read.
pub parse_sync_mode_iff : (v : String) (m : SyncMode) → (parse_sync_mode v ≡ ok m) ↔ Asks v m
parse_sync_mode_iff v m = (parse_sound v m, parse_complete v m)
