-- ===== src/Protocol/Versions.antt =====
-- The fold of `RetValue` over the replies of replicas that have the key: it comes to an end, and at a clock
-- that is not earlier than the local one and those of the replies.
pub mod Replies
use mathlib.Core.List.{append_assoc}
use avocado.Common.{
  ℕ, zero, suc, ◌+◌, ◌^◌, ◌≤◌, ◌<◌, ◌≡◌, refl, ap, sym, subst, some, List, [], ◌∷◌, ◌++◌, length,
  length-append, map, drop, length-drop, replicate, length-replicate, arith, ◌>>=◌, get_elem?,
}
use avocado.Common.Bytes.{write, write-rest}
use avocado.KeyAccess.{lamport_bytes, length-lamport_bytes, add_meta_size}
use avocado.Lamport
use avocado.Lamport.{Lamport}
use avocado.Memtable
use avocado.Memtable.Interface.{Cipher, SkipList}
use avocado.Memtable.{Store}
use avocado.Msg.Build.{Holds}
use avocado.Msg.Wire.{length-to_bytes}
use avocado.Msg.{Msg, to_bytes}
use avocado.Protocol.Answer.{later_response_ends}
use avocado.Protocol.Clocks.{of_bytes-append}
use avocado.Protocol.Context.{Context, reduce, reduce_resp}
use avocado.Protocol.Continuations.{Latest, later_response, latest_value}
use avocado.Protocol.{Packet, Config}

-- What a replica answers to GetValueTimeStamp: a clock and a value, under some IV
pub record Version : Type 0 where
  pub iv : ℕ
  pub clock : Lamport
  pub value : List ℕ

-- The message of a version, as `value_msg` builds it
abbrev pub version_msg : List ℕ → Version → Msg
version_msg key v = record {
  key_size = length key + 8;
  size = length key + 8 + length v.value;
  buf = (key ++ lamport_bytes v.clock) ++ v.value;
}

abbrev pub clocks_of : List Version → List Lamport
clocks_of [] = []
clocks_of (v ∷ vs) = v.clock ∷ clocks_of vs

-- The values fit the buffers, and are long enough for the bytes that the copy leaves out.
abbrev pub Fit : List ℕ → (room tmp : ℕ) → List Version → Type 0
Fit key room tmp [] = 0 ≤ 0
Fit key room tmp (v ∷ vs) =
    Lamport.IsValid v.clock
    × (16 ≤ length v.value)
    × (length key + 24 + length v.value ≤ room)
    × (length key + 8 + length v.value ≤ tmp)
    × Fit key room tmp vs

version_msg-Holds :
    (key : List ℕ) (v : Version) (rest : List ℕ)
    → length key + 8 + length v.value + length rest < 2 ^ 63
    → Holds
        (record (version_msg key v) { buf = (version_msg key v).buf ++ rest })
        (key ++ lamport_bytes v.clock)
        v.value
        (length rest)
version_msg-Holds key v rest small = record {
  rest = rest;
  room_left = refl;
  key_size = omega (arith, key_size);
  size = omega (arith, key_size);
  layout = append_assoc (key ++ lamport_bytes v.clock) v.value rest;
  small = omega (arith, key_size);
}
  where
    key_size : length (key ++ lamport_bytes v.clock) ≡ length key + 8
    key_size =
        omega (arith, length-append key (lamport_bytes v.clock), length-lamport_bytes v.clock)

module _ (packet : Packet) (key : List ℕ) where
  open packet use {encrypt, decrypt, decrypt-encrypt}

  abbrev pub version_packet : Version → List ℕ
  version_packet v = encrypt v.iv (to_bytes (version_msg key v))

  -- The fold ends at `l'`, which is not earlier than any of the versions.
  abbrev EndsAt : List ℕ → List Version → Latest → Latest → Type 0
  EndsAt mem vs l l' =
      (reduce packet (later_response (add_meta_size (length key))) mem (map version_packet vs) l
        ≡ some l')
      × (Lamport.to_int l.clock ≤ Lamport.to_int l'.clock)
      × ((p : ℕ) (clock : Lamport)
          → get_elem? (clocks_of vs) p ≡ some clock
          → Lamport.to_int clock ≤ Lamport.to_int l'.clock)

  -- The first one and those behind it
  both :
      (v : Version) (vs : List Version) (l' : Latest)
      → Lamport.to_int v.clock ≤ Lamport.to_int l'.clock
      → ((p : ℕ) (clock : Lamport)
          → get_elem? (clocks_of vs) p ≡ some clock
          → Lamport.to_int clock ≤ Lamport.to_int l'.clock)
      → (p : ℕ) (clock : Lamport) → get_elem? (clocks_of (v ∷ vs)) p ≡ some clock
      → Lamport.to_int clock ≤ Lamport.to_int l'.clock
  both v vs l' first others zero clock e =
      let same : v.clock ≡ clock = cc in omega (arith, first, ap Lamport.to_int same)
  both v vs l' first others (suc p) clock e = others p clock e

  reduce-versions :
      (mem : List ℕ) (vs : List Version) (l : Latest)
      → length mem < 2 ^ 31
      → Fit key (length mem) (length l.tmp) vs
      → (l' : Latest) × EndsAt mem vs l l'
  unfolding reduce
  reduce-versions mem [] l small fit = (l, (refl, omega arith, λ p clock e. cc))
  reduce-versions mem (v ∷ vs) l small (valid, long, room, tmp, fit) =
      let (l₁, run, kept, seen, same) =
        later_response_ends l key v.value v.clock read_back (length rest)
          (version_msg-Holds key v rest (omega (arith, small, length_rest))) valid long tmp in
      let (l', (ends, later, all)) =
        reduce-versions (plain ++ rest) vs l₁ (omega (arith, small, length_mem)) (
          subst (λ n. Fit key n (length l₁.tmp) vs) (sym length_mem)
            (subst (λ n. Fit key (length mem) n vs) (sym same) fit)) in
      (
        l',
        (
          rw
              (
                decrypt-encrypt v.iv plain (omega (arith, length_plain, room, small)),
                ◌>>=◌,
                write-rest [] plain mem refl (omega (arith, length_plain, room)),
                of_bytes-append (version_msg key v) rest (omega (arith, room, small))
                    (omega (arith, room, small)),
                run,
              )
              ends,
          omega (arith, kept, later),
          both v vs l' (omega (arith, seen, later)) all,
        ),
      )
    where
      plain : List ℕ
      plain = to_bytes (version_msg key v)

      rest : List ℕ
      rest = drop (length plain) mem

      read_back : Msg
      read_back = record (version_msg key v) { buf = (version_msg key v).buf ++ rest }

      length_plain : length plain ≡ length key + 24 + length v.value
      length_plain = omega (
        arith,
        length-to_bytes (version_msg key v),
        length-append (key ++ lamport_bytes v.clock) v.value,
        length-append key (lamport_bytes v.clock),
        length-lamport_bytes v.clock,
      )

      length_rest : length rest + length plain ≡ length mem
      length_rest = omega (arith, length-drop (length plain) mem, length_plain, room)

      length_mem : length (plain ++ rest) ≡ length mem
      length_mem = omega (arith, length-append plain rest, length_rest)

module _ (packet : Packet) (cipher : Cipher) (skip_list : SkipList) (config : Config)
    (kv : Store cipher skip_list) where
  -- RetValue's fold over such replies comes to an end, at a clock that is not earlier than the local one and
  -- those of the replies.
  pub latest_version :
      (c : Context) (vs : List Version)
      → c.node.key_size ≡ length c.node.key
      → c.cache ≡ map (version_packet packet c.node.key) vs
      → c.max_resp_size < 2 ^ 31
      → Fit c.node.key c.max_resp_size config.max_package_size vs
      → (latest : Latest) × (latest_value cipher skip_list packet config kv c ≡ some latest)
        × (Lamport.to_int (Memtable.get_node cipher skip_list kv c.node).lamport
            ≤ Lamport.to_int latest.clock)
        × ((p : ℕ) (clock : Lamport)
            → get_elem? (clocks_of vs) p ≡ some clock
            → Lamport.to_int clock ≤ Lamport.to_int latest.clock)
  unfolding latest_value reduce_resp
  latest_version c vs size cached small fit =
      let (l', (ends, later, all)) =
        reduce-versions packet c.node.key (replicate c.max_resp_size 0) vs init
          (omega (arith, room, small))
          (subst (λ n. Fit c.node.key n (length {A = ℕ} (replicate config.max_package_size 0)) vs)
            (sym room) (subst (λ n. Fit c.node.key c.max_resp_size n vs) (sym copy) fit)) in
      (
        l',
        rw cached (
            subst
              (λ n.
                reduce packet (later_response (add_meta_size n)) (replicate c.max_resp_size 0)
                  (map (version_packet packet c.node.key) vs) init
                ≡ some l')
              (sym size) ends),
        later,
        all,
      )
    where
      init : Latest
      init = record {
        counts = [];
        tmp = replicate config.max_package_size 0;
        clock = (Memtable.get_node cipher skip_list kv c.node).lamport;
        span = (Memtable.get_node cipher skip_list kv c.node).value;
        span_size = (Memtable.get_node cipher skip_list kv c.node).size;
      }

      room : length {A = ℕ} (replicate c.max_resp_size 0) ≡ c.max_resp_size
      room = length-replicate {A = ℕ} c.max_resp_size 0

      copy : length {A = ℕ} (replicate config.max_package_size 0) ≡ config.max_package_size
      copy = length-replicate {A = ℕ} config.max_package_size 0
