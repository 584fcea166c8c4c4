-- ===== src/Bridge/Layout.antt =====
-- rtcommunicate.c and comwrapper.h: the array that spells a backup set, and the `REALTIME_BACKUP_DATA`
-- of it.
use github_upload.Base.{le32, ℕ, ◌+◌, ◌*◌, ◌^◌, ◌≤◌, ◌<◌, List, [], ◌∷◌, ◌++◌, length, replicate}
use github_upload.MonitorSet.Requests.{FilterItem}
use github_upload.Bridge.{backup_data_size, filter_item_size, max_path}
use github_upload.Bridge.Blocks.{padded}

-- An item in the array: its length, its type and its name.
abbrev pub spell_items : List FilterItem → List ℕ
spell_items [] = []
spell_items (i ∷ is) = le32 (length i.name + 4) ++ (le32 i.file_type ++ (i.name ++ spell_items is))

abbrev pub spell_body : List ℕ → List ℕ → List FilterItem → List ℕ
spell_body guid cache_dir items =
    le32 (length items)
    ++ (le32 (length guid)
        ++ (guid ++ (le32 (length cache_dir) ++ (cache_dir ++ spell_items items))))

-- The array for a backup set.
abbrev pub spell : List ℕ → List ℕ → List FilterItem → List ℕ
spell guid cache_dir items =
    let body = spell_body guid cache_dir items in le32 (4 + length body) ++ body

-- The items of the `REALTIME_BACKUP_DATA`.
abbrev pub lay_items : List FilterItem → List ℕ
lay_items [] = []
lay_items (i ∷ is) = le32 i.file_type ++ (padded max_path i.name ++ lay_items is)

abbrev pub block_size : List FilterItem → ℕ
block_size items = backup_data_size + filter_item_size * length items

-- The `REALTIME_BACKUP_DATA` for a backup set, with the room for one more item at its end.
abbrev pub lay : List ℕ → List ℕ → List FilterItem → List ℕ
lay guid cache_dir items =
    le32 (block_size items)
    ++ (guid
        ++ (le32 (length items)
            ++ (padded max_path cache_dir ++ (lay_items items ++ replicate filter_item_size 0))))

-- The types fit 32 bits, and the names their field.
abbrev pub Fits : FilterItem → Type 0
Fits i = (i.file_type < 2 ^ 32) × (length i.name ≤ max_path)
