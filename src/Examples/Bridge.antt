-- ===== src/Examples/Bridge.antt =====
-- The theorems on the user-space bridge, for a set of the file "/a" with its logs in "/l".
use github_upload.Base.{
  ℕ, List, [], ◌∷◌, ◌++◌, true, ok, some, replicate, length-replicate, pos, ◌≡◌, refl, arith,
}
use github_upload.Driver.{Notice, pure, ◌>>◌}
use github_upload.MonitorSet.Requests.{FilterItem}
use github_upload.Netlink.{run_command}
use github_upload.Bridge.{get_back_set_info}
use github_upload.Bridge.Layout.{spell, lay}
use github_upload.Bridge.RoundTrip.{get_back_set_info-spell}
use github_upload.Bridge.Client.{Client, Packet, net_ok}
use github_upload.Bridge.Message.{guid_number, no_item, receive}
use github_upload.Bridge.Slash.{slash}
use github_upload.Bridge.Session.{thread_round, netlink_to_user, thread_round-netlink_to_user}
use github_upload.Bridge.Delivered.{adds_set, asked, java, java-delivered}
use github_upload.Examples.{kernel, driver, path_a}

abbrev guid_7 : List ℕ
guid_7 = replicate 15 0 ++ (7 ∷ [])

abbrev dir_l : List ℕ
dir_l = b'/' ∷ b'l' ∷ []

abbrev item_a : FilterItem
item_a = record { file_type = 0; name = path_a }

abbrev client : Client
client = record {
  connected = true;
  threads = 1;
  sent = [];
  registered = true;
  told = [];
  notification = replicate 556 0;
  allocs = [];
  calls = [];
}

abbrev zeros : ℕ → List ℕ
zeros n = replicate n 0

get_back_set_info-spell_example :
    get_back_set_info (spell guid_7 dir_l (item_a ∷ [])) true true
    ≡ ok (some (lay guid_7 dir_l (item_a ∷ [])))
get_back_set_info-spell_example =
    get_back_set_info-spell guid_7 dir_l (item_a ∷ []) refl (omega arith)
      ((omega arith, omega arith), tt) (omega arith) (omega arith)

java-delivered_example :
    (packet : Packet) × (java zeros adds_set (spell guid_7 dir_l (item_a ∷ [])) true client
      ≡ ok (net_ok, record client { sent = packet ∷ [] }))
    × (receive kernel packet driver
        ≡ (run_command kernel (asked adds_set) (record {
          guid = guid_number 0 guid_7;
          item_count = 1;
          cache_dir = dir_l ++ slash;
          items = item_a ∷ no_item ∷ [];
        })
              >> pure tt)
            driver)
java-delivered_example =
    java-delivered zeros kernel adds_set guid_7 dir_l (item_a ∷ []) client driver
      (λ n. length-replicate n 0) refl (omega arith) (omega arith, (omega arith, tt))
      ((omega arith, omega arith, (omega arith, (omega arith, tt))), tt) (omega arith) (omega arith)
      refl refl refl

abbrev running : Notice
running = record { type = 0x4005; status = pos 1 }

thread_round-netlink_to_user_example :
    (u : Client) × (thread_round (some (netlink_to_user running)) client ≡ ok u)
    × (u.told ≡ (0x4005, 1) ∷ [])
thread_round-netlink_to_user_example =
    thread_round-netlink_to_user running client (omega arith) refl refl refl refl
