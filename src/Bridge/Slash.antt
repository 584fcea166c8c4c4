-- ===== src/Bridge/Slash.antt =====
-- communicate.c: `SendConfig` puts a slash behind the directory of a block that has been laid out.
use github_upload.Base.{
  ◌>>=◌, le32, ℕ, zero, suc, ◌+◌, ◌-◌, ◌<◌, ◌≤◌, List, [], ◌∷◌, ◌++◌, ok, drop, length, replicate,
  All, ◌≡◌, refl, arith, ap, sym, ◌∙◌, append_assoc, drop-append, length-append,
}
use github_upload.MonitorSet.Requests.{FilterItem}
use github_upload.Bridge.{store, cache_dir_offset, filter_item_size, max_path}
use github_upload.Bridge.Blocks.{padded, drop_past, store-at, length-padded}
use github_upload.Bridge.Layout.{lay_items, block_size, lay}
use github_upload.Bridge.Client.{strlen, byte_at, end_with_slash}
use github_upload.Bridge.Message.{IsChar, FitsString, length-lay_items}

strlen-zero : (s rest : List ℕ) → All IsChar s → strlen (s ++ (0 ∷ rest)) ≡ ok (length s)
unfolding strlen
strlen-zero [] rest h = refl
strlen-zero (zero ∷ s) rest h = absurd (omega (arith, h.0))
strlen-zero (suc c ∷ s) rest h = ap (λ o. o >>= λ n. ok (suc n)) (strlen-zero s rest h.1)

byte_at-drop :
    (block rest : List ℕ) (offset b : ℕ)
    → drop offset block ≡ b ∷ rest
    → byte_at block offset ≡ ok b
unfolding byte_at
byte_at-drop block rest offset b e = rw (e, byte_at) refl

abbrev pub slash : List ℕ
slash = b'/' ∷ []

module _ (guid cache_dir : List ℕ) (items : List FilterItem) where
  -- The block up to the end of the directory's name, and what is behind the byte that follows it.
  abbrev up_to_dir : List ℕ
  up_to_dir = le32 (block_size items) ++ (guid ++ (le32 (length items) ++ cache_dir))

  abbrev behind_dir : List ℕ
  behind_dir =
      replicate (max_path - length cache_dir - 1) 0
      ++ (lay_items items ++ replicate filter_item_size 0)

  dir_split :
      length cache_dir < max_path
      → padded max_path cache_dir ++ (lay_items items ++ replicate filter_item_size 0)
        ≡ cache_dir ++ (0 ∷ behind_dir)
  dir_split l =
      let more : max_path - length cache_dir ≡ suc (max_path - length cache_dir - 1) =
        omega arith in
      let rest : List ℕ = lay_items items ++ replicate filter_item_size 0 in
      append_assoc cache_dir _ rest ∙ ap (λ m. cache_dir ++ (replicate m 0 ++ rest)) more

  lay_split : length cache_dir < max_path → lay guid cache_dir items ≡ up_to_dir ++ (0 ∷ behind_dir)
  lay_split l =
      ap (λ z. le32 (block_size items) ++ (guid ++ (le32 (length items) ++ z))) (dir_split l)
      ∙ ap (λ z. le32 (block_size items) ++ z)
          (sym (append_assoc guid (le32 (length items) ++ cache_dir) (0 ∷ behind_dir)))

  lay_slashed :
      length cache_dir < max_path
      → up_to_dir ++ (b'/' ∷ behind_dir) ≡ lay guid (cache_dir ++ slash) items
  lay_slashed l =
      let rest : List ℕ = lay_items items ++ replicate filter_item_size 0 in
      let less : max_path - length cache_dir - 1 ≡ max_path - length (cache_dir ++ slash) =
        omega (arith, length-append cache_dir slash) in
      ap (λ z. le32 (block_size items) ++ z)
        (append_assoc guid (le32 (length items) ++ cache_dir) (b'/' ∷ behind_dir))
      ∙ ap (λ z. le32 (block_size items) ++ (guid ++ (le32 (length items) ++ z)))
          (ap (λ m. cache_dir ++ (b'/' ∷ (replicate m 0 ++ rest))) less
            ∙ sym (append_assoc cache_dir slash _)
            ∙ sym (append_assoc (cache_dir ++ slash) _ rest))

  -- The directory gets a '/' at its end, whether it has one or not.
  pub end_with_slash-lay :
      length guid ≡ 16
      → length cache_dir < max_path
      → All IsChar cache_dir
      → end_with_slash (lay guid cache_dir items) ≡ ok (lay guid (cache_dir ++ slash) items)
  unfolding end_with_slash
  end_with_slash-lay g l h =
      let c : ℕ = length cache_dir in
      let n : List ℕ = le32 (length items) in
      let block : List ℕ = lay guid cache_dir items in
      let rest : List ℕ = lay_items items ++ replicate filter_item_size 0 in
      let behind : List ℕ = n ++ (padded max_path cache_dir ++ rest) in
      let h20 : drop 20 block ≡ behind =
        ap (λ m. drop m (guid ++ behind)) (sym g) ∙ drop-append guid behind in
      let h24 : drop cache_dir_offset block ≡ cache_dir ++ (0 ∷ behind_dir) =
        drop_past block n _ 20 h20 ∙ dir_split l in
      let dir_len : strlen (drop cache_dir_offset block) ≡ ok c =
        ap strlen h24 ∙ strlen-zero cache_dir behind_dir h in
      let nul : drop (cache_dir_offset + c) block ≡ 0 ∷ behind_dir =
        drop_past block cache_dir _ cache_dir_offset h24 in
      let last : byte_at block (cache_dir_offset + c) ≡ ok 0 =
        byte_at-drop block behind_dir (cache_dir_offset + c) 0 nul in
      let at : cache_dir_offset + c ≡ length up_to_dir =
        omega (arith, length-append guid (n ++ cache_dir)) in
      let stored : store (cache_dir_offset + c) slash block
          ≡ ok (lay guid (cache_dir ++ slash) items) =
        ap (store (cache_dir_offset + c) slash) (lay_split l)
        ∙ store-at up_to_dir (0 ∷ []) slash behind_dir (cache_dir_offset + c) at refl
        ∙ ap ok (lay_slashed l) in
      rw (dir_len, last, stored) refl

pub length-lay :
    (guid cache_dir : List ℕ) (items : List FilterItem)
    → length guid ≡ 16
    → length cache_dir ≤ max_path
    → All FitsString items
    → length (lay guid cache_dir items) ≡ block_size items
length-lay guid cache_dir items g l f =
    let rest : List ℕ = lay_items items ++ replicate filter_item_size 0 in
    omega (
      arith,
      length-append guid (le32 (length items) ++ (padded max_path cache_dir ++ rest)),
      length-append (padded max_path cache_dir) rest,
      length-padded max_path cache_dir l,
      length-append (lay_items items) (replicate filter_item_size 0),
      length-lay_items items f,
    )
