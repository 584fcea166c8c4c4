-- ===== src/Bridge/RoundTrip.antt =====
-- rtcommunicate.c: `GetBackSetInfo` makes of an array that spells a backup set the
-- `REALTIME_BACKUP_DATA` of it.
use github_upload.Base.{
  le32, ℕ, suc, ◌+◌, ◌-◌, ◌*◌, ◌%◌, ◌^◌, ◌≤◌, ◌<◌, List, [], ◌∷◌, ◌++◌, true, false, some, ok, ltb,
  leb, ◌==◌, length, drop, replicate, All, ◌≡◌, refl, arith, sym, ap, ◌∙◌, length-append,
  length-replicate, replicate_add, append_assoc,
}
use github_upload.MonitorSet.Requests.{FilterItem}
use github_upload.Bridge.{
  get_int_from_buffer, int_at, store, copy, copy_items, fill_back_set, get_back_set_info,
  filter_item_size, max_path, guid_offset, counts_offset, cache_dir_offset, items_offset,
}
use github_upload.Bridge.Blocks.{
  int_at-le32, drop_past, store-at, store_fresh, padded, store-padded, copy-store, length-padded,
}
use github_upload.Bridge.Layout.{spell_items, spell_body, spell, lay_items, block_size, lay, Fits}

-- One round of the loop over the items.
copy_items-step :
    (i : FilterItem) (n : ℕ) (array rest q : List ℕ) (to offset k : ℕ)
    → Fits i
    → to ≡ length q
    → drop offset array ≡ le32 (length i.name + 4) ++ (le32 i.file_type ++ (i.name ++ rest))
    → copy_items (suc n) to offset array (q ++ replicate (filter_item_size + k) 0)
      ≡ copy_items n
          (to + filter_item_size)
          (offset + 8 + length i.name)
          array
          (q ++ (le32 i.file_type ++ (padded max_path i.name ++ replicate k 0)))
unfolding copy_items
copy_items-step i n array rest q to offset k f e h =
    let typed = le32 i.file_type in
    let len_read : int_at array offset ≡ ok (length i.name + 4) =
      int_at-le32 array _ offset (length i.name + 4) (omega (arith, f.1)) h in
    let h4 = drop_past array (le32 (length i.name + 4)) (typed ++ (i.name ++ rest)) offset h in
    let type_read : int_at array (offset + 4) ≡ ok i.file_type =
      int_at-le32 array _ (offset + 4) i.file_type f.0 h4 in
    let h8 : drop (offset + 8) array ≡ i.name ++ rest =
      ap (λ m. drop m array) (omega arith)
      ∙ drop_past array typed (i.name ++ rest) (offset + 4) h4 in
    let typed_in : store to typed (q ++ replicate (filter_item_size + k) 0)
        ≡ ok (q ++ (typed ++ replicate (max_path + k) 0)) =
      store_fresh q typed to (filter_item_size + k) e (omega arith)
      ∙ ap (λ m. ok (q ++ (typed ++ replicate m 0))) (omega arith) in
    let long_enough : leb 4 (length i.name + 4) ≡ true = ground arith in
    let name_len : length i.name + 4 - 4 ≡ length i.name = omega arith in
    let named_in : copy (to + 4) array (offset + 8) (length i.name)
          (q ++ (typed ++ replicate (max_path + k) 0))
        ≡ ok (q ++ (typed ++ (padded max_path i.name ++ replicate k 0))) =
      copy-store array i.name rest _ (to + 4) (offset + 8) (omega (arith, f.1)) h8
      ∙ store-padded q typed i.name (to + 4) k max_path (omega (arith, length-append q typed))
          f.1 in
    let past : offset + 8 + (length i.name + 4 - 4) ≡ offset + 8 + length i.name = omega arith in
    rw (len_read, type_read, typed_in, long_enough, name_len, named_in) refl

copy_items-lays :
    (items : List FilterItem) (array q : List ℕ) (to offset k : ℕ)
    → All Fits items
    → to ≡ length q
    → drop offset array ≡ spell_items items
    → copy_items
        (length items)
        to
        offset
        array
        (q ++ replicate (filter_item_size * length items + k) 0)
      ≡ ok (q ++ (lay_items items ++ replicate k 0))
unfolding copy_items
copy_items-lays [] array q to offset k f e h = ap (λ m. ok (q ++ replicate m 0)) (omega arith)
copy_items-lays (i ∷ is) array q to offset k f e h =
    let typed = le32 i.file_type in
    let named = padded max_path i.name in
    let rest = spell_items is in
    let n : ℕ = length is in
    let zeros : List ℕ = replicate (filter_item_size * n + k) 0 in
    let more : filter_item_size * suc n + k ≡ filter_item_size + (filter_item_size * n + k) =
      omega arith in
    let h4 = drop_past array (le32 (length i.name + 4)) (typed ++ (i.name ++ rest)) offset h in
    let h8 = drop_past array typed (i.name ++ rest) (offset + 4) h4 in
    let next : drop (offset + 8 + length i.name) array ≡ rest =
      ap (λ m. drop m array) (omega arith) ∙ drop_past array i.name rest (offset + 4 + 4) h8 in
    let size : to + filter_item_size ≡ length (q ++ (typed ++ named)) = omega (
      arith,
      length-append q (typed ++ named),
      length-append typed named,
      length-append i.name (replicate (max_path - length i.name) 0),
      length-replicate {A = ℕ} (max_path - length i.name) 0,
      f.0.1,
    ) in
    ap (λ m. copy_items (suc n) to offset array (q ++ replicate m 0)) more
    ∙ copy_items-step i n array rest q to offset (filter_item_size * n + k) f.0 e h
    ∙ ap (copy_items n (to + filter_item_size) (offset + 8 + length i.name) array) (
        ap (λ z. q ++ z) (sym (append_assoc typed named zeros))
        ∙ sym (append_assoc q (typed ++ named) zeros))
    ∙ copy_items-lays is array (q ++ (typed ++ named)) (to + filter_item_size)
        (offset + 8 + length i.name) k f.1 size next
    ∙ ap ok (append_assoc q (typed ++ named) _)
    ∙ ap (λ z. ok (q ++ z))
        (append_assoc typed named _ ∙ ap (λ z. typed ++ z) (sym (append_assoc named _ _)))

-- `memset` and `ulSize`: the fields in front of the items are zeros.
store_size :
    (k : ℕ)
    → let size : ℕ = 284 + k in
      store 0 (le32 size) (replicate size 0)
      ≡ ok (le32 size ++ (replicate 16 0 ++ (replicate 4 0 ++ replicate (max_path + k) 0)))
store_size k =
    let left : 284 + k - 4 ≡ 16 + (4 + (max_path + k)) = omega arith in
    store_fresh [] (le32 (284 + k)) 0 (284 + k) refl (omega arith)
    ∙ ap (λ m. ok (le32 (284 + k) ++ replicate m 0)) left
    ∙ ap (λ z. ok (le32 (284 + k) ++ z)) (replicate_add 16 (4 + (max_path + k)) 0)
    ∙ ap (λ z. ok (le32 (284 + k) ++ (replicate 16 0 ++ z))) (replicate_add 4 (max_path + k) 0)

-- The fields in front of the items once they are filled, and what comes behind them.
abbrev headed : ℕ → List ℕ → ℕ → List ℕ → List ℕ → List ℕ
headed size guid n cache_dir rest =
    le32 size ++ (guid ++ (le32 n ++ (padded max_path cache_dir ++ rest)))

headed-append :
    (size n : ℕ) (guid cache_dir rest : List ℕ)
    → headed size guid n cache_dir [] ++ rest ≡ headed size guid n cache_dir rest
headed-append size n guid cache_dir rest =
    let dir = padded max_path cache_dir in
    ap (λ z. le32 size ++ z) (append_assoc guid (le32 n ++ (dir ++ [])) rest)
    ∙ ap (λ z. le32 size ++ (guid ++ (le32 n ++ z))) (append_assoc dir [] rest)

module _ (guid cache_dir : List ℕ) (items : List FilterItem) (is_guid : length guid ≡ 16)
    (dir_fits : length cache_dir ≤ max_path) (items_fit : All Fits items)
    (block_fits : block_size items < 2 ^ 31) where
  copy_head :
      (array rest : List ℕ) (size n k : ℕ)
      → drop 12 array ≡ guid ++ (le32 (length cache_dir) ++ (cache_dir ++ rest))
      → drop 32 array ≡ cache_dir ++ rest
      → (copy guid_offset array 12 16
            (le32 size ++ (replicate 16 0 ++ (le32 n ++ replicate (max_path + k) 0)))
          ≡ ok (le32 size ++ (guid ++ (le32 n ++ replicate (max_path + k) 0))))
        × (copy cache_dir_offset array 32
              (length cache_dir)
              (le32 size ++ (guid ++ (le32 n ++ replicate (max_path + k) 0)))
            ≡ ok (headed size guid n cache_dir (replicate k 0)))
  copy_head array rest size n k h12 h32 = (
    ap
          (λ m.
            copy guid_offset array 12 m
              (le32 size ++ (replicate 16 0 ++ (le32 n ++ replicate (max_path + k) 0))))
          (sym is_guid)
        ∙ copy-store array guid _ _ guid_offset 12 (omega arith) h12
        ∙ store-at (le32 size) (replicate 16 0) guid (le32 n ++ replicate (max_path + k) 0)
            guid_offset refl is_guid,
    copy-store array cache_dir _ _ cache_dir_offset 32 (omega arith) h32
        ∙ store-padded (le32 size ++ guid) (le32 n) cache_dir cache_dir_offset k max_path
            (omega (arith, length-append guid (le32 n))) dir_fits,
  )

  fill_back_set-lays :
      (array : List ℕ)
      → drop 4 array ≡ spell_body guid cache_dir items
      → fill_back_set (length items) array true ≡ ok (some (lay guid cache_dir items))
  unfolding fill_back_set
  fill_back_set-lays array h =
      let n : ℕ = length items in
      let c : ℕ = length cache_dir in
      let k : ℕ = filter_item_size * n + filter_item_size in
      let size : ℕ = block_size items in
      let is_size : size ≡ 284 + k = omega arith in
      let size32 : size % 2 ^ 32 ≡ 284 + k = omega arith in
      let small : ltb (284 + k) (2 ^ 31) ≡ true = ground arith in
      let few : ltb n (2 ^ 31) ≡ true = ground arith in
      let dir_read : List ℕ = le32 c ++ (cache_dir ++ spell_items items) in
      let h8 = drop_past array (le32 n) _ 4 h in
      let guid_len : int_at array 8 ≡ ok 16 =
        int_at-le32 array _ 8 (length guid) (omega arith) h8 ∙ ap ok is_guid in
      let h12 = drop_past array (le32 (length guid)) (guid ++ dir_read) 8 h8 in
      let h28 : drop 28 array ≡ dir_read =
        ap (λ m. drop (12 + m) array) (sym is_guid) ∙ drop_past array guid dir_read 12 h12 in
      let dir_len : int_at array 28 ≡ ok c = int_at-le32 array _ 28 c (omega arith) h28 in
      let h32 : drop 32 array ≡ cache_dir ++ spell_items items =
        drop_past array (le32 c) _ 28 h28 in
      let (with_guid, with_dir) = copy_head array (spell_items items) (284 + k) n k h12 h32 in
      let past : drop (32 + c) array ≡ spell_items items = drop_past array cache_dir _ 32 h32 in
      let dir : List ℕ = padded max_path cache_dir in
      let sized : length (headed (284 + k) guid n cache_dir []) ≡ items_offset = omega (
        arith,
        length-append guid (le32 n ++ (dir ++ [])),
        length-append dir [],
        length-padded max_path cache_dir dir_fits,
      ) in
      let filled : copy_items n items_offset (32 + c) array
            (headed (284 + k) guid n cache_dir (replicate k 0))
          ≡ ok (
              headed (284 + k) guid n cache_dir (lay_items items ++ replicate filter_item_size 0)) =
        ap (copy_items n items_offset (32 + c) array)
          (sym (headed-append (284 + k) n guid cache_dir (replicate k 0)))
        ∙ copy_items-lays items array (headed (284 + k) guid n cache_dir []) items_offset (32 + c)
            filter_item_size items_fit (sym sized) past
        ∙ ap ok (headed-append (284 + k) n guid cache_dir _) in
      let counted =
        store-at (le32 (284 + k) ++ replicate 16 0) (replicate 4 0) (le32 n)
          (replicate (max_path + k) 0) counts_offset refl refl in
      rw
        (
          size32,
          small,
          few,
          store_size k,
          counted,
          guid_len,
          with_guid,
          dir_len,
          with_dir,
          filled,
          is_size,
        )
        refl

  get_back_set_info-array :
      (array : List ℕ)
      → array ≡ spell guid cache_dir items
      → length array < 2 ^ 31
      → get_back_set_info array true true ≡ ok (some (lay guid cache_dir items))
  unfolding get_back_set_info
  get_back_set_info-array array e short =
      let body : List ℕ = spell_body guid cache_dir items in
      let as_long : length array ≡ 4 + length body = ap length e ∙ omega arith in
      let size_read : get_int_from_buffer (some array) ≡ ok (length array) =
        int_at-le32 array body 0 (length array) (omega arith)
          (e ∙ ap (λ m. le32 m ++ body) (sym as_long)) in
      let count_read : int_at array 4 ≡ ok (length items) =
        int_at-le32 array _ 4 (length items) (omega arith) (ap (drop 4) e) in
      let long : leb (length array) 4 ≡ false = ground arith in
      let same : length array == length array ≡ true = ground arith in
      rw (long, size_read, same, count_read, fill_back_set-lays array (ap (drop 4) e)) refl

  -- What Java spells, `GetBackSetInfo` lays out: for a GUID of 16 bytes, a directory and names that
  -- fit their fields, and sizes that fit an `int`, with the elements and memory to be had, it comes
  -- to the `REALTIME_BACKUP_DATA` of exactly these.
  pub get_back_set_info-spell :
      length (spell guid cache_dir items) < 2 ^ 31
      → get_back_set_info (spell guid cache_dir items) true true
        ≡ ok (some (lay guid cache_dir items))
  get_back_set_info-spell short = get_back_set_info-array (spell guid cache_dir items) refl short
