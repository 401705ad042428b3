-- ===== src/Server/Run.antt =====
-- The main loop of `run_event_loop` in src/server.cpp: how a command of the trace starts, and the handlers
-- that go on with it.
pub mod Sends
pub mod Count
use avocado.Common.{
  ℕ, ◌+◌, ◌%◌, ◌^◌, ◌≤◌, ◌<◌, ◌≡◌, refl, ap, sym, ◌∙◌, subst, Bool, true, false, Option, none, some,
  List, [], ◌∷◌, ◌++◌, length, map, not, ◌&&◌, ltb, if◌then◌else◌, arith, ◌>>=◌, >>=-eq-some,
  Bool-cases, inl, inr, get_elem?, take, zero, suc,
}
use avocado.Common.Bytes.{read, write}
use avocado.KeyAccess.{lamport_bytes, add_meta_size}
use avocado.Lamport
use avocado.Lamport.{Lamport}
use avocado.Memtable
use avocado.Memtable.Interface.{Cipher, SkipList}
use avocado.Memtable.{Store}
use avocado.Msg.{
  Msg, to_bytes, adjust_size, header_size, alloc, get_key, get_value, builder, add_key, add_value,
}
use avocado.Protocol.Context.{Context, default_node, create, send, reduce_resp}
use avocado.Protocol.Continuations.{
  later_count, span_bytes, set_clock, get_time, ack_put_time, Latest, latest_value, has_consensus,
  ret_value, ret_get_put_update,
}
use avocado.Protocol.Operations.{
  increment, decrement, send_shard, send_to_shard, benchmark_put, benchmark_get,
}
use avocado.Protocol.Routing.{get_idx}
use avocado.Protocol.{Packet, Config, Effect, ReqType, ContType}
use avocado.Trace.{Op, TraceCmd}

-- `ABD::get_msg`
unfoldable pub get_msg : ℕ → ℕ → Option Msg
unfolding alloc
get_msg key_size value_size = do
  res ← alloc ((key_size + value_size + header_size) % 2 ^ 64)
  some (record res { key_size = key_size; size = (key_size + value_size) % 2 ^ 64 })

-- How often the client is called: each of the three functions releases the rate limit once.
abbrev pub calls : List Effect → ℕ
calls [] = 0
calls (Effect.put_ret msg ∷ effects) = suc (calls effects)
calls (Effect.get_ret value size ∷ effects) = suc (calls effects)
calls (Effect.skip_ret ∷ effects) = suc (calls effects)
calls (Effect.request session req cont bytes ∷ effects) = calls effects
calls (Effect.respond bytes ∷ effects) = calls effects
calls (Effect.cmd_ret n msg ∷ effects) = calls effects

module _ (cipher : Cipher) (skip_list : SkipList) (packet : Packet) (config : Config) where
  unfoldable pub start_op :
      Op
      → Store cipher skip_list
      → ℕ
      → ℕ
      → Msg
      → Option (Context × Store cipher skip_list × ℕ × List Effect)
  unfolding benchmark_put benchmark_get
  start_op Op.put = benchmark_put cipher skip_list packet config
  start_op Op.get = benchmark_get cipher skip_list packet config

  -- One round of the loop, after `aquire`: the hash of the key is copied into a new message.
  unfoldable pub start :
      Store cipher skip_list
      → (traces iv key_size value_size : ℕ) → TraceCmd
      → Option (Context × Store cipher skip_list × ℕ × List Effect)
  unfolding get_msg start_op
  start kv traces iv key_size value_size trace = do
    msg ← get_msg key_size value_size
    buf ← write 0 trace.key_hash msg.buf
    start_op trace.op kv traces iv (record msg { buf = buf })

  -- A handler of an operation that this node has started, with `current_traces` before and after it, and what it does; `starts` says
  -- how many operations it starts.
  pub data Handled (traces traces' : ℕ) (effects : List Effect) (started : ℕ) : Type 0 where
    starting :
        (kv kv' : Store cipher skip_list) (iv key_size value_size : ℕ) (trace : TraceCmd)
        (c : Context)
        → start kv traces iv key_size value_size trace ≡ some (c, kv', traces', effects)
        → started ≡ 1
        → Handled traces traces' effects started
    getting_time :
        (rounds : List Bool) (kv kv' : Store cipher skip_list) (iv : ℕ) (c c' : Context)
        → get_time cipher skip_list packet config rounds kv traces iv c
          ≡ some (c', kv', traces', effects)
        → started ≡ 0
        → Handled traces traces' effects started
    put_ending :
        ack_put_time cipher skip_list packet config traces ≡ (traces', effects)
        → started ≡ 0
        → Handled traces traces' effects started
    get_ending :
        (kv : Store cipher skip_list) (iv : ℕ) (c : Context)
        → ret_value cipher skip_list packet config kv traces iv c ≡ some (traces', effects)
        → started ≡ 0
        → Handled traces traces' effects started
    updated :
        ret_get_put_update cipher skip_list packet config traces ≡ (traces', effects)
        → started ≡ 0
        → Handled traces traces' effects started

  -- A run of handlers from the start of the program: `current_traces`, the operations started so far and
  -- the client's calls so far.
  pub data Run : ℕ → ℕ → ℕ → Type 0 where
    begin : Run 0 0 0
    handle :
        {traces traces' started called n : ℕ} {effects : List Effect}
        → Run traces started called
        → Handled traces traces' effects n
        → Run traces' (started + n) (called + calls effects)
