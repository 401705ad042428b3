-- ===== src/Protocol/ReadPath.antt =====
-- The second phase of a get: what `RetValue` makes of the responses.
use avocado.Common.{
  >>=-eq-some, ℕ, suc, ◌+◌, ◌/◌, ◌≤◌, ◌<◌, ◌≡◌, ◌⊎◌, refl, true, false, some, List, [], ◌∷◌, length,
  arith, replicate, Option-cases, inl, inr,
}
use avocado.Common.Bytes.{write}
use avocado.KeyAccess.{get_lamport, add_meta_size}
use avocado.Lamport
use avocado.Lamport.{Lamport}
use avocado.Memtable
use avocado.Memtable.Interface.{Cipher, SkipList}
use avocado.Memtable.{Store}
use avocado.Msg.{Msg, of_bytes}
use avocado.Protocol.Context.{Context, reduce, reduce_resp, req_conts}
use avocado.Protocol.Continuations.{
  Latest, count_clock, has_consensus, later_response, latest_value,
}
use avocado.Protocol.Quorum.{IsCounting, req_conts_quorum}
use avocado.Protocol.{Packet, Config}

-- How many responses were counted
abbrev pub total : List (Lamport × ℕ) → ℕ
total [] = 0
total ((c, n) ∷ counts) = n + total counts

count_clock-total :
    (clock : Lamport) (counts : List (Lamport × ℕ))
    → total (count_clock clock counts) ≡ total counts + 1
unfolding count_clock
count_clock-total clock [] = refl
count_clock-total clock ((c, n) ∷ counts) = ground (arith, count_clock-total clock counts)

has_consensus-total :
    (n_msgs : ℕ) (counts : List (Lamport × ℕ))
    → total counts ≤ n_msgs / 2
    → has_consensus n_msgs counts ≡ false
unfolding has_consensus
has_consensus-total n_msgs [] h = refl
has_consensus-total n_msgs ((c, n) ∷ counts) h = ground (arith, has_consensus-total n_msgs counts)

-- One response: it is counted once, and only a later clock replaces what was found.
abbrev Moves : ℕ → Latest → Latest → Type 0
Moves n l l' =
    (total l'.counts ≡ total l.counts + n)
    × (((l'.clock ≡ l.clock) × (l'.span ≡ l.span) × (l'.span_size ≡ l.span_size))
        ⊎ (Lamport.to_int l.clock < Lamport.to_int l'.clock))

later_response-Moves :
    (key_size : ℕ) (l : Latest) (buf : Msg) (l' : Latest)
    → later_response key_size l buf ≡ some l'
    → Moves 1 l l'
unfolding later_response Lamport.gt
later_response-Moves key_size l buf l' e =
    elim (Option-cases (get_lamport key_size (some buf.buf))) [
      | inl bad ↦ absurd (ground (arith, bad))
      | inr (clock, e₁) ↦ ground (arith, e₁, count_clock-total clock l.counts)
    ]

Moves-trans : (n : ℕ) (l l₁ l' : Latest) → Moves 1 l l₁ → Moves n l₁ l' → Moves (suc n) l l'
Moves-trans n l l₁ l' m₁ m₂ = ground (arith, m₁, m₂)

module _ (packet : Packet) where
  open packet use {decrypt}

  reduce-Moves :
      (key_size : ℕ) (mem : List ℕ) (resps : List (List ℕ)) (l l' : Latest)
      → reduce packet (later_response key_size) mem resps l ≡ some l'
      → Moves (length resps) l l'
  unfolding reduce
  reduce-Moves key_size mem [] l l' e = ground arith
  reduce-Moves key_size mem (resp ∷ resps) l l' e =
      let (plain, e₀, run₀) = >>=-eq-some (decrypt resp) _ e in
      let (mem', e₁, run₁) = >>=-eq-some (write 0 plain.0 mem) _ run₀ in
      let (msg, e₂, run₂) = >>=-eq-some (of_bytes mem') _ run₁ in
      let (l₁, e₃, run₃) = >>=-eq-some (later_response key_size l msg) _ run₂ in
      Moves-trans _ l l₁ l' (later_response-Moves key_size l msg l₁ e₃)
        (reduce-Moves key_size mem' resps l₁ l' run₃)

  module _ (cipher : Cipher) (skip_list : SkipList) (config : Config)
      (kv : Store cipher skip_list) where
    -- All responses are counted. What RetValue finds is the local value with its clock, or has a clock
    -- that is later than the local one.
    latest_value_lem :
        (c : Context) (latest : Latest)
        → latest_value cipher skip_list packet config kv c ≡ some latest
        → (total latest.counts ≡ length c.cache)
          × (((latest.clock ≡ (Memtable.get_node cipher skip_list kv c.node).lamport)
                × (latest.span ≡ (Memtable.get_node cipher skip_list kv c.node).value)
                × (latest.span_size ≡ (Memtable.get_node cipher skip_list kv c.node).size))
              ⊎ (Lamport.to_int (Memtable.get_node cipher skip_list kv c.node).lamport
                  < Lamport.to_int latest.clock))
    unfolding latest_value reduce_resp
    latest_value_lem c latest e = ground (
      arith,
      reduce-Moves (add_meta_size c.node.key_size) (replicate c.max_resp_size 0) c.cache _ latest e,
    )

    -- With two messages or more, RetValue runs on too few responses for any clock to have the votes
    -- that its test asks for: there is never consensus.
    pub no_consensus :
        (c : Context) (resp : List ℕ) (latest : Latest)
        → IsCounting c
        → 2 ≤ c.n_msgs
        → (req_conts c resp).1 ≡ true
        → latest_value cipher skip_list packet config kv (req_conts c resp).0 ≡ some latest
        → has_consensus (req_conts c resp).0.n_msgs latest.counts ≡ false
    no_consensus c resp latest counting two runs e =
        has_consensus-total (req_conts c resp).0.n_msgs latest.counts (
          omega (
            arith,
            latest_value_lem (req_conts c resp).0 latest e,
            req_conts_quorum c resp counting runs,
            two,
          ))
