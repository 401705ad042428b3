-- ===== src/Protocol/Requests.antt =====
-- What a replica does on a request: the handlers `req_handlers` for GetTimeStamp, PutReplica,
-- GetValueTimeStamp and Cmd. A handler gets the packet and the IV of its response; it returns the
-- store and the responses that it enqueues. `none` is an access out of bounds.
use avocado.Common.{ℕ, ◌+◌, Bool, Option, none, some, List, [], ◌∷◌, length, take, ◌>>=◌}
use avocado.Common.Bytes.{read}
use avocado.KeyAccess.{lamport_bytes, get_lamport, add_meta_size, sub_meta_size}
use avocado.Lamport
use avocado.Memtable
use avocado.Memtable.Interface.{Cipher, SkipList}
use avocado.Memtable.{Store}
use avocado.Msg.{
  Msg, of_bytes, to_bytes, adjust_size, get_key, get_value, builder, add_key, add_value,
}
use avocado.Protocol.{Packet, Effect}

-- `"ACK"`; `add_key (ACK)` adds its first byte only.
abbrev pub ack : List ℕ
ack = b'A' ∷ b'C' ∷ b'K' ∷ 0 ∷ []

module _ (packet : Packet) where
  open packet use {encrypt, decrypt}

  -- `get_data`; that the tag is wrong is not noticed.
  unfoldable pub get_data : List ℕ → Option Msg
  unfolding of_bytes
  get_data req = do (plain, _) ← decrypt req; of_bytes plain

  -- `encrypt_and_resp`: the sized part of the message.
  unfoldable pub encrypt_and_resp : ℕ → Msg → Option Effect
  unfolding adjust_size to_bytes
  encrypt_and_resp iv msg = do
    plain ← read 0 (adjust_size msg.size) (to_bytes msg)
    some (Effect.respond (encrypt iv plain))

  -- `if (!cmd) return;`
  unfoldable pub handle_cmd : Option (Msg → Option Msg) → ℕ → List ℕ → Option (List Effect)
  unfolding get_data encrypt_and_resp
  handle_cmd none iv req = some []
  handle_cmd (some cmd) iv req = do
    data_msg ← get_data req
    msg ← cmd data_msg
    resp ← encrypt_and_resp iv msg
    some (resp ∷ [])

module _ (cipher : Cipher) (skip_list : SkipList) where
  -- The messages of the three handlers that answer from the store.
  unfoldable pub time_stamp_msg : Store cipher skip_list → Msg → Option Msg
  time_stamp_msg kv req = do
    key ← get_key req
    let res = Memtable.get cipher skip_list kv key
    builder 8 >>= add_key (lamport_bytes res.lamport)

  unfoldable pub value_msg : Store cipher skip_list → Msg → Option Msg
  value_msg kv req = do
    key ← get_key req
    let res = Memtable.get cipher skip_list kv key
    elim res.value [
      | some value ↦
          builder (add_meta_size (length key) + res.size)
          >>= add_key key
          >>= add_key (lamport_bytes res.lamport)
          >>= add_value (take res.size value)
      | none ↦
          builder (add_meta_size (length key))
          >>= add_key key
          >>= add_key (lamport_bytes Lamport.min)
    ]

  -- `kv.put` at the key without the clock behind it, and the acknowledgement.
  unfoldable pub put_replica :
      List Bool → Store cipher skip_list → Msg → Option (Store cipher skip_list × Msg)
  put_replica rounds kv req = do
    key ← get_key req
    clock ← get_lamport req.key_size (some key)
    value ← get_value req
    own_key ← read 0 (sub_meta_size req.key_size) key
    (accepted, kv') ← Memtable.put cipher skip_list rounds kv own_key value clock
    msg ← builder (length ack) >>= add_key (take 1 ack)
    some (kv', msg)

  module _ (packet : Packet) where
    unfoldable pub handle_get_time_stamp :
        Store cipher skip_list → ℕ → List ℕ → Option (List Effect)
    unfolding get_data encrypt_and_resp time_stamp_msg
    handle_get_time_stamp kv iv req = do
      data_msg ← get_data packet req
      msg ← time_stamp_msg kv data_msg
      resp ← encrypt_and_resp packet iv msg
      some (resp ∷ [])

    unfoldable pub handle_get_value_time_stamp :
        Store cipher skip_list → ℕ → List ℕ → Option (List Effect)
    unfolding get_data encrypt_and_resp value_msg
    handle_get_value_time_stamp kv iv req = do
      data_msg ← get_data packet req
      msg ← value_msg kv data_msg
      resp ← encrypt_and_resp packet iv msg
      some (resp ∷ [])

    unfoldable pub handle_put_replica :
        List Bool
        → Store cipher skip_list
        → ℕ
        → List ℕ
        → Option (Store cipher skip_list × List Effect)
    unfolding get_data encrypt_and_resp put_replica
    handle_put_replica rounds kv iv req = do
      data_msg ← get_data packet req
      (kv', msg) ← put_replica rounds kv data_msg
      resp ← encrypt_and_resp packet iv msg
      some (kv', resp ∷ [])
