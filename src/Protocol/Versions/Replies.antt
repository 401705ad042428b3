-- ===== src/Protocol/Versions/Replies.antt =====
-- The handler of GetValueTimeStamp answers with the packet of the node's version of the key.
use mathlib.Core.List.{append-nil}
use avocado.Common.{
  length_zero, ℕ, ◌+◌, ◌%◌, ◌^◌, ◌<◌, ◌≡◌, refl, subst, ap, ◌∙◌, some, List, [], ◌∷◌, ◌++◌, length,
  length-append, take, take-length, arith, ◌>>=◌,
}
use avocado.Common.Bytes.{read, read-append_end}
use avocado.KeyAccess.{lamport_bytes, add_meta_size, length-lamport_bytes}
use avocado.Memtable
use avocado.Memtable.Interface.{Cipher, SkipList}
use avocado.Memtable.{Store}
use avocado.Msg.Build.{Holds, build-Holds, get_key-Holds}
use avocado.Msg.Wire.{eq_of_fields, length-to_bytes}
use avocado.Msg.{Msg, to_bytes}
use avocado.Protocol.Requests.{get_data, value_msg, encrypt_and_resp, handle_get_value_time_stamp}
use avocado.Protocol.Versions.{Version, version_msg, version_packet}
use avocado.Protocol.{Packet, Effect}

-- A message without room is that of its version.
Holds-version :
    (m : Msg) (key : List ℕ) (v : Version) (room : ℕ)
    → room ≡ 0
    → Holds m (key ++ lamport_bytes v.clock) v.value room
    → m ≡ version_msg key v
Holds-version m key v room none_left h =
    eq_of_fields m (version_msg key v) (omega (arith, h.key_size, length_key))
      (omega (arith, h.size, length_key))
      (h.layout
        ∙ ap (λ r. (key ++ lamport_bytes v.clock) ++ (v.value ++ r))
            (length_zero h.rest (omega (arith, h.room_left, none_left)))
        ∙ ap (λ l. (key ++ lamport_bytes v.clock) ++ l) (append-nil v.value))
  where
    length_key : length (key ++ lamport_bytes v.clock) ≡ length key + 8
    length_key =
        omega (arith, length-append key (lamport_bytes v.clock), length-lamport_bytes v.clock)

module _ (cipher : Cipher) (skip_list : SkipList) (kv : Store cipher skip_list) (key value : List ℕ)
    (iv : ℕ) where
  abbrev version : Version
  version = record {
    iv = iv;
    clock = (Memtable.get cipher skip_list kv key).lamport;
    value = value;
  }

  value_msg-version :
      (req : Msg) (sent : List ℕ) (room : ℕ)
      → Holds req key sent room
      → (Memtable.get cipher skip_list kv key).value ≡ some value
      → length value ≡ (Memtable.get cipher skip_list kv key).size
      → length key + 8 + length value < 2 ^ 63
      → value_msg cipher skip_list kv req ≡ some (version_msg key version)
  unfolding value_msg
  value_msg-version req sent room h found sized small =
      let max_size = add_meta_size (length key) + (Memtable.get cipher skip_list kv key).size in
      let full : length key + 8 + length value ≡ max_size = omega (arith, sized, small) in
      let length_clock = length-lamport_bytes version.clock in
      let (m, built, holds) =
        build-Holds max_size key (lamport_bytes version.clock) value (omega (arith, full, small))
          (omega (arith, full, length_clock)) in
      rw
        (get_key-Holds h, ◌>>=◌, found, subst (λ n. take n value ≡ value) sized (take-length value))
        built
      ∙ ap some (Holds-version m key version _ (omega (arith, full, length_clock)) holds)

  -- A node that is asked for the value of a key it has stored answers with one packet: the message whose key
  -- is the key with the stored clock behind it, and whose value is the stored value.
  pub get_answered :
      (packet : Packet) (bytes sent : List ℕ) (req : Msg) (room : ℕ)
      → get_data packet bytes ≡ some req
      → Holds req key sent room
      → (Memtable.get cipher skip_list kv key).value ≡ some value
      → length value ≡ (Memtable.get cipher skip_list kv key).size
      → length key + 8 + length value < 2 ^ 63
      → handle_get_value_time_stamp cipher skip_list packet kv iv bytes
        ≡ some (Effect.respond (version_packet packet key version) ∷ [])
  unfolding handle_get_value_time_stamp encrypt_and_resp
  get_answered packet bytes sent req room received h found sized small =
      rw (received, ◌>>=◌, value_msg-version req sent room h found sized small, whole) refl
    where
      whole :
          read 0
            ((length key + 8 + length value + 16) % 2 ^ 64)
            (to_bytes (version_msg key version))
          ≡ some (to_bytes (version_msg key version))
      whole = read-append_end [] (to_bytes (version_msg key version)) refl (
          omega (
            arith,
            small,
            length-to_bytes (version_msg key version),
            length-append (key ++ lamport_bytes version.clock) value,
            length-append key (lamport_bytes version.clock),
            length-lamport_bytes version.clock,
          ))
