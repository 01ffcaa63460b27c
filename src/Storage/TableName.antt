-- ===== src/Storage/TableName.antt =====
-- storage/crsqlite/data.go: the name of a dataset's op_log table.
pub mod Safety
pub mod Isolation
use mobile_db.Prelude.{◌+◌, leb, if◌then◌else◌, Str, codes, ◌&&◌, ◌||◌, [], ◌∷◌, ◌++◌}

-- The loop of `sanitize` over the bytes.
unfoldable pub sanitize : Str → Str
sanitize [] = []
sanitize (c ∷ s) =
    (if leb b'a' c && leb c b'z' || leb b'A' c && leb c b'Z' || leb b'0' c && leb c b'9'
      then c
      else b'_')
    ∷ sanitize s

-- `fmt.Sprintf("op_log_%s_%s_%s", …)`
unfoldable pub dataset_table : Str → Str → Str → Str
dataset_table app_id user_id dataset_id =
    codes "op_log_"
    ++ (sanitize app_id ++ (codes "_" ++ (sanitize user_id ++ (codes "_" ++ sanitize dataset_id))))

-- SQLite takes table names that differ in the case of ASCII letters for one name.
unfoldable pub table_key : Str → Str
table_key [] = []
table_key (c ∷ s) = (if leb b'A' c && leb c b'Z' then c + 32 else c) ∷ table_key s
