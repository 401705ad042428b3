-- ===== src/Server/Commands.antt =====
-- The end of a run: the commands DONE and ACK of `run_event_loop` in src/server.cpp, with the counters that
-- its last loop waits for.
use avocado.Common.{
  ℕ, zero, suc, ◌+◌, ◌^◌, ◌<◌, ◌≡◌, refl, ap, ◌∙◌, Bool, true, false, ◌&&◌, ◌||◌, Option, none,
  some, List, [], ◌∷◌, ◌++◌, length, length-append, map, ltb, ◌==◌, if◌then◌else◌, arith, ◌>>=◌,
}
use avocado.Msg.Build.{Holds, builder-Holds, add_key-Holds, get_key-Holds}
use avocado.Msg.{Msg, header_size, get_key, builder, add_key}
use avocado.Protocol.Context.{Context, default_node, create, last_msg, last_msg_lem}
use avocado.Protocol.Delivery.{send-get_data, encrypt_and_resp-get_data}
use avocado.Protocol.Operations.{send_cmd}
use avocado.Protocol.Requests.{get_data, handle_cmd}
use avocado.Protocol.{Packet, Effect, ReqType, ContType}
use avocado.Strings.{NoNul}

-- `strncmp (a, b, n) == 0`; `none` is a read behind the end of an array.
unfoldable pub strncmp_eq : List ℕ → List ℕ → ℕ → Option Bool
strncmp_eq a b zero = some true
strncmp_eq [] b (suc n) = none
strncmp_eq (x ∷ a) [] (suc n) = none
strncmp_eq (x ∷ a) (y ∷ b) (suc n) =
    if x == y then (if x == 0 then some true else strncmp_eq a b n) else some false

-- `other_finished` and `others_ack` of the thread, and the counters of the whole program
pub record Counts : Type 0 where
  pub other_finished : ℕ
  pub others_finished_d : ℕ
  pub others_ack : ℕ
  pub others_ack_d : ℕ

abbrev pub done : List ℕ
done = b'D' ∷ b'O' ∷ b'N' ∷ b'E' ∷ []

abbrev pub ack : List ℕ
ack = b'A' ∷ b'C' ∷ b'K' ∷ []

abbrev pub err : List ℕ
err = b'E' ∷ b'R' ∷ b'R' ∷ []

-- `abd.cmd`
unfoldable pub on_cmd : Counts → Msg → Option (Msg × Counts)
unfolding strncmp_eq
on_cmd counts msg = do
  key ← get_key msg
  is_done ← strncmp_eq (done ++ (0 ∷ [])) key msg.key_size
  reply ← builder 5 >>= add_key ((if is_done then ack else err) ++ (0 ∷ []))
  some (
    reply,
    if is_done
        then record counts {
          other_finished = counts.other_finished + 1;
          others_finished_d = counts.others_finished_d + 1;
        }
        else counts,
  )

-- What the handler of Cmd takes for `cmd`
unfoldable pub answer : Counts → Msg → Option Msg
unfolding on_cmd
answer counts msg = do (reply, counts') ← on_cmd counts msg; some reply

-- `abd.cmd_ret`, and whether it saw an acknowledgement
unfoldable pub on_cmd_ret : Counts → ℕ → Msg → Option (Counts × Bool)
unfolding strncmp_eq
on_cmd_ret counts n_resp msg = do
  key ← get_key msg
  is_ack ← strncmp_eq (ack ++ (0 ∷ [])) key msg.key_size
  some (record counts { others_ack = n_resp; others_ack_d = counts.others_ack_d + 1 }, is_ack)

-- The condition of the last loop
unfoldable pub waiting : Counts → ℕ → Bool
waiting counts others = ltb counts.other_finished others || ltb counts.others_ack others

abbrev pub text_eq : List ℕ → List ℕ → Bool
text_eq [] [] = true
text_eq (x ∷ xs) (y ∷ ys) = x == y && text_eq xs ys
text_eq _ _ = false

-- Of two texts with their final zeros, with the second one's size
strncmp_eq-text_eq :
    (a b : List ℕ)
    → NoNul a
    → NoNul b
    → strncmp_eq (a ++ (0 ∷ [])) (b ++ (0 ∷ [])) (length b + 1) ≡ some (text_eq a b)
unfolding strncmp_eq
strncmp_eq-text_eq [] [] ha hb = refl
strncmp_eq-text_eq [] (y ∷ b) ha hb = ground (arith, hb.0)
strncmp_eq-text_eq (x ∷ a) [] ha hb = ground (arith, ha.0)
strncmp_eq-text_eq (x ∷ a) (y ∷ b) ha hb =
    ground (arith, ha.0, hb.0, strncmp_eq-text_eq a b ha.1 hb.1)

abbrev finished : Counts → Bool → Counts
finished counts is_done =
    if is_done
    then record counts {
      other_finished = counts.other_finished + 1;
      others_finished_d = counts.others_finished_d + 1;
    }
    else counts

holds_text :
    (prefix text : List ℕ) (m : Msg) (room : ℕ)
    → NoNul prefix
    → NoNul text
    → Holds m (text ++ (0 ∷ [])) [] room
    → strncmp_eq (prefix ++ (0 ∷ [])) (text ++ (0 ∷ [])) m.key_size ≡ some (text_eq prefix text)
holds_text prefix text m room hp ht h =
    ap (strncmp_eq (prefix ++ (0 ∷ [])) (text ++ (0 ∷ []))) size
    ∙ strncmp_eq-text_eq prefix text hp ht
  where
    size : m.key_size ≡ length text + 1
    size = omega (arith, h.key_size, length-append text (0 ∷ []))

reply_built :
    (is_done : Bool)
    → (m : Msg) × (builder 5 >>= add_key ((if is_done then ack else err) ++ (0 ∷ [])) ≡ some m)
      × Holds m ((if is_done then ack else err) ++ (0 ∷ [])) [] 1
reply_built true =
    let (m₀, e₀, h₀) = builder-Holds 5 (omega arith) in
    let (m₁, e₁, h₁) = add_key-Holds (ack ++ (0 ∷ [])) h₀ (omega arith) in
    (m₁, rw (e₀, ◌>>=◌) e₁, h₁)
reply_built false =
    let (m₀, e₀, h₀) = builder-Holds 5 (omega arith) in
    let (m₁, e₁, h₁) = add_key-Holds (err ++ (0 ∷ [])) h₀ (omega arith) in
    (m₁, rw (e₀, ◌>>=◌) e₁, h₁)

reply_short :
    (is_done : Bool)
    → length ((if is_done then ack else err) ++ (0 ∷ [])) + length {A = ℕ} [] + header_size < 2 ^ 31
reply_short true = omega arith
reply_short false = omega arith

on_cmd_lem :
    (counts : Counts) (command : List ℕ) (m : Msg) (room : ℕ)
    → NoNul command
    → Holds m (command ++ (0 ∷ [])) [] room
    → on_cmd counts m
      ≡ some ((reply_built (text_eq done command)).0, finished counts (text_eq done command))
unfolding on_cmd
on_cmd_lem counts command m room hc h =
    rw
      (
        get_key-Holds h,
        ◌>>=◌,
        holds_text done command m room (omega arith) hc h,
        (reply_built (text_eq done command)).1,
      )
      refl

on_cmd_ret_lem :
    (counts : Counts) (n : ℕ) (is_done : Bool) (m : Msg)
    → Holds m ((if is_done then ack else err) ++ (0 ∷ [])) [] 0
    → on_cmd_ret counts n m
      ≡ some (record counts { others_ack = n; others_ack_d = counts.others_ack_d + 1 }, is_done)
unfolding on_cmd_ret
on_cmd_ret_lem counts n true m h =
    rw (get_key-Holds h, ◌>>=◌, holds_text ack ack m 0 (omega arith) (omega arith) h) refl
on_cmd_ret_lem counts n false m h =
    rw (get_key-Holds h, ◌>>=◌, holds_text ack err m 0 (omega arith) (omega arith) h) refl

-- A command of less than 2^30 bytes without NULs that is sent reaches every session as one packet, if there is
-- a session. The node that gets it counts it if it is DONE, and answers; the response, when it is the last that came in, makes the sender count the responses
-- and see an acknowledgement exactly if the command was DONE.
pub command_answered :
    (packet : Packet) (sessions : List ℕ) (iv iv' n : ℕ) (command : List ℕ) (theirs mine : Counts)
    (c : Context) (before : List (List ℕ))
    → 0 < length sessions
    → NoNul command
    → length command < 2 ^ 30
    → (bytes : List ℕ) × (received : Msg) × (sent_back : Msg) × (reply : List ℕ) × (back : Msg)
      × (send_cmd packet sessions iv command
          ≡ some (
            record (create default_node) { n_msgs = length sessions },
            map (λ session. Effect.request session ReqType.cmd ContType.cmd_ret bytes) sessions,
          ))
      × (get_data packet bytes ≡ some received)
      × (on_cmd theirs received ≡ some (sent_back, finished theirs (text_eq done command)))
      × (handle_cmd packet (some (answer theirs)) iv' bytes ≡ some (Effect.respond reply ∷ []))
      × (last_msg packet (record c { cache = before ++ (reply ∷ []) }) ≡ some back)
      × (on_cmd_ret mine n back
          ≡ some (
            record mine { others_ack = n; others_ack_d = mine.others_ack_d + 1 },
            text_eq done command,
          ))
unfolding send_cmd handle_cmd answer get_data
command_answered packet sessions iv iv' n command theirs mine c before some_session hc small =
    let (m₀, e₀, h₀) = builder-Holds (length command + 1) (omega arith) in
    let (m₁, e₁, h₁) = add_key-Holds command h₀ (omega arith) in
    let (m₂, e₂, h₂) = add_key-Holds (0 ∷ []) h₁ (omega arith) in
    let (bytes, received, sent, read_back, holds) =
      send-get_data packet (create default_node) sessions ReqType.cmd ContType.cmd_ret iv m₂ _ _ _
        some_session h₂ (omega (arith, small, length-append command (0 ∷ []))) in
    let (m, e, h) = reply_built (text_eq done command) in
    let (reply, back, responds, back_read, back_holds) =
      encrypt_and_resp-get_data packet iv' m _ _ _ h (reply_short (text_eq done command)) in
    (
      bytes,
      received,
      m,
      reply,
      back,
      rw (e₀, ◌>>=◌, e₁, e₂) sent,
      read_back,
      on_cmd_lem theirs command received 0 hc holds,
      rw (read_back, ◌>>=◌, on_cmd_lem theirs command received 0 hc holds, responds) refl,
      last_msg_lem packet (record c { cache = before ++ (reply ∷ []) }) before reply refl
          ∙ back_read,
      on_cmd_ret_lem mine n (text_eq done command) back back_holds,
    )
