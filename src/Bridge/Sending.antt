-- ===== src/Bridge/Sending.antt =====
-- communicate.c: what `SendConfig` sends for a backup set that has been laid out.
use github_upload.Base.{
  le32, ℕ, zero, suc, ◌+◌, ◌-◌, ◌*◌, ◌%◌, ◌^◌, ◌<◌, ◌≤◌, List, [], ◌∷◌, ◌++◌, true, false, ok, some,
  ltb, drop, take, length, All, ◌≡◌, refl, arith, ap, sym, ◌∙◌, append-nil, length-append, ℤ,
}
use github_upload.MonitorSet.Requests.{FilterItem}
use github_upload.Bridge.{int_at, store, copy, max_path}
use github_upload.Bridge.Blocks.{int_at-le32, store-at, copy-store}
use github_upload.Bridge.Slash.{slash, end_with_slash-lay, length-lay}
use github_upload.Bridge.Layout.{block_size, lay}
use github_upload.Bridge.Client.{
  Client, Packet, net_ok, nlmsg_space, max_msg_len, rtb_cmd, backup_data_offset, end_with_slash,
  netlink_send, malloc, call, send_data, send_config,
}
use github_upload.Bridge.Message.{IsChar, FitsString}

take-drop : (n : ℕ) (xs : List ℕ) → take n xs ++ drop n xs ≡ xs
take-drop zero xs = refl
take-drop (suc n) [] = refl
take-drop (suc n) (x ∷ xs) = ap (λ z. x ∷ z) (take-drop n xs)

length-take-drop :
    (n : ℕ) (xs : List ℕ)
    → n ≤ length xs
    → (length (take n xs) ≡ n) × (length (drop n xs) ≡ length xs - n)
length-take-drop zero xs h = (refl, omega arith)
length-take-drop (suc n) [] h = absurd (omega arith)
length-take-drop (suc n) (x ∷ xs) h =
    let (a, b) = length-take-drop n xs (omega arith) in (omega arith, omega arith)

-- The two writes to the memory of a message, of which four bytes stay as they were.
message_filled :
    (memory block : List ℕ) (type : ℕ)
    → length memory ≡ backup_data_offset + length block
    → length block < 2 ^ 31
    → let typed = le32 type ++ drop 4 memory in
      let left = take 4 (drop 4 memory) in
      (store 0 (le32 type) memory ≡ ok typed)
      × (copy backup_data_offset block 0 (length block) typed ≡ ok (le32 type ++ (left ++ block)))
message_filled memory block type e b =
    let (a, c) = length-take-drop 4 memory (omega arith) in
    let (a', c') = length-take-drop 4 (drop 4 memory) (omega arith) in
    let left : List ℕ = take 4 (drop 4 memory) in
    let old : List ℕ = drop 4 (drop 4 memory) in
    (
      ap (store 0 (le32 type)) (sym (take-drop 4 memory))
          ∙ store-at [] (take 4 memory) (le32 type) (drop 4 memory) 0 refl (sym a),
      copy-store block block [] _ backup_data_offset 0 b (sym (append-nil block))
          ∙ ap (λ z. store backup_data_offset block (le32 type ++ z))
              (sym (take-drop 4 (drop 4 memory)) ∙ ap (λ z. left ++ z) (sym (append-nil old)))
          ∙ store-at (le32 type ++ left) old block [] backup_data_offset (omega arith) (omega arith)
          ∙ ap (λ z. ok (le32 type ++ (left ++ z))) (append-nil block),
    )

pub malloc-done : (c : Client) → c.allocs ≡ [] → malloc c ≡ (true, c)
unfolding malloc
malloc-done c a = ground arith

-- A message that there is room for is sent as it is, its length being a multiple of 4.
netlink_send-sends :
    (sbuf : List ℕ) (c : Client) (n : ℕ)
    → length sbuf ≡ n * 4
    → length sbuf ≤ max_msg_len
    → c.allocs ≡ []
    → c.calls ≡ []
    → netlink_send rtb_cmd sbuf c
      ≡ ok (
        net_ok,
        record c {
          sent =
              record { nlmsg_len = length sbuf + 16; nlmsg_type = rtb_cmd; payload = sbuf }
              ∷ c.sent;
        },
      )
unfolding netlink_send malloc call
netlink_send-sends sbuf c n e b a i =
    let whole : nlmsg_space (length sbuf) ≡ length sbuf + 16 = omega arith in
    let fits : ltb max_msg_len (length sbuf) ≡ false = ground arith in
    let no_pad : length sbuf + 16 - 16 - length sbuf ≡ 0 = omega arith in
    rw (a, i, fits, whole, no_pad, append-nil sbuf) refl

-- The packet with the laid out data of a request.
abbrev pub data_packet : ℕ → List ℕ → List ℕ → Packet
data_packet type left block = record {
  nlmsg_len = length block + 24;
  nlmsg_type = rtb_cmd;
  payload = le32 type ++ (left ++ block);
}

module _ (fresh : ℕ → List ℕ) (sizes : (n : ℕ) → length (fresh n) ≡ n) where
  send_data-sends :
      (block slashed : List ℕ) (n type : ℕ) (c : Client)
      → int_at block 0 ≡ ok (length slashed)
      → end_with_slash block ≡ ok slashed
      → int_at slashed 0 ≡ ok (length slashed)
      → length slashed ≡ n * 4
      → backup_data_offset + length slashed ≤ max_msg_len
      → c.allocs ≡ []
      → c.calls ≡ []
      → (left : List ℕ) × (length left ≡ 4)
        × (send_data fresh block type c
            ≡ ok ((net_ok, slashed), record c { sent = data_packet type left slashed ∷ c.sent }))
  unfolding send_data
  send_data-sends block slashed n type c r e r' m b a i =
      let size : ℕ = length slashed in
      let fn_size : (size + backup_data_offset) % 2 ^ 32 ≡ size + backup_data_offset =
        omega arith in
      let small : ltb (size + backup_data_offset) (2 ^ 31) ≡ true = ground arith in
      let memory : List ℕ = fresh (size + backup_data_offset) in
      let enough : length memory ≡ backup_data_offset + length slashed =
        sizes (size + backup_data_offset) ∙ omega arith in
      let left : List ℕ = take 4 (drop 4 memory) in
      let (typed, filled) = message_filled memory slashed type enough (omega arith) in
      let four : length left ≡ 4 =
        (length-take-drop 4 (drop 4 memory)
          (omega (arith, enough, length-take-drop 4 memory (omega (arith, enough))))).0 in
      let bytes : List ℕ = le32 type ++ (left ++ slashed) in
      let is_size : length bytes ≡ size + 8 = omega (arith, length-append left slashed, four) in
      let sent =
        netlink_send-sends bytes c (n + 2) (omega (arith, is_size)) (omega (arith, is_size)) a i in
      let len : length bytes + 16 ≡ size + 24 = omega (arith, is_size) in
      let as_packet : netlink_send rtb_cmd bytes c
          ≡ ok (net_ok, record c { sent = data_packet type left slashed ∷ c.sent }) =
        sent
        ∙ ap
            (λ m. ok (
              net_ok,
              record c {
                sent = record { nlmsg_len = m; nlmsg_type = rtb_cmd; payload = bytes } ∷ c.sent;
              },
            ))
            len in
      (left, four, rw (r, malloc-done c a, fn_size, small, typed, e, r', filled, as_packet) refl)

  send_config-connected :
      (block slashed : List ℕ) (type : ℕ) (c u : Client) (ret : ℤ)
      → c.connected ≡ true
      → send_data fresh block type c ≡ ok ((ret, slashed), u)
      → send_config fresh (some block) type c ≡ ok ((ret, some slashed), u)
  unfolding send_config
  send_config-connected block slashed type c u ret h e = rw (e, h) refl

  -- `SendConfig` of a backup set that has been laid out sends it with a '/' at the end of its
  -- directory, and leaves it so.
  pub send_config-lay :
      (guid cache_dir : List ℕ) (items : List FilterItem) (type : ℕ) (c : Client)
      → length guid ≡ 16
      → length cache_dir < max_path
      → All IsChar cache_dir
      → All FitsString items
      → backup_data_offset + block_size items ≤ max_msg_len
      → c.connected ≡ true
      → c.allocs ≡ []
      → c.calls ≡ []
      → let slashed = lay guid (cache_dir ++ slash) items in
        (left : List ℕ) × (length left ≡ 4)
        × (length slashed ≡ block_size items)
        × (send_config fresh (some (lay guid cache_dir items)) type c
            ≡ ok (
              (net_ok, some slashed),
              record c { sent = data_packet type left slashed ∷ c.sent },
            ))
  send_config-lay guid cache_dir items type c g l h f b s a i =
      let size : ℕ = block_size items in
      let block : List ℕ = lay guid cache_dir items in
      let slashed : List ℕ = lay guid (cache_dir ++ slash) items in
      let is_size : length slashed ≡ size =
        length-lay guid (cache_dir ++ slash) items g (omega (arith, length-append cache_dir slash))
          f in
      let size_read : int_at block 0 ≡ ok (length slashed) =
        int_at-le32 block _ 0 size (omega arith) refl ∙ ap ok (sym is_size) in
      let size_again : int_at slashed 0 ≡ ok (length slashed) =
        int_at-le32 slashed _ 0 size (omega arith) refl ∙ ap ok (sym is_size) in
      let (left, four, sent) =
        send_data-sends block slashed (137 + 66 * length items) type c size_read
          (end_with_slash-lay guid cache_dir items g l h) size_again (is_size ∙ omega arith)
          (omega (arith, is_size)) a i in
      (left, four, is_size, send_config-connected block slashed type c _ net_ok s sent)
