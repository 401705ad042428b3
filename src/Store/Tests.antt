-- ===== src/Store/Tests.antt =====
-- The hash table over a cipher that only adds a tag, and the theorems about it at concrete inputs.
use avocado.Common.{none, false, ℕ, ◌≡◌, refl, true, some, List, [], ◌∷◌, arith, replicate}
use avocado.Store.Hash.{Openssl, Hash, zeros, create, copy, move, equal, update_hash}
use avocado.Store.Hash.Objects.{Made, made_idle}
use avocado.LinkedList.Chain.{Chain}
use avocado.LinkedList.{NodeList}
use avocado.Store.Positions.{Represents, Inserted, Erased, position, positions_refine}
use avocado.Store.Put.{put, put_first_lem}
use avocado.Store.Get.{get, get-put-Missing, get-put-found}
use avocado.Store.Table.{Cipher, Entry, RetValue, entry_of, match_entry, hash_from}

-- A library of OpenSSL that gives contexts and does nothing with them
abbrev idle : Openssl
idle = record {
  Ctx = ℕ;
  new = some 5;
  init = λ c. (true, c);
  update = λ c src. (true, 0, c);
  final = λ c. (true, [], c);
}

abbrev tagging : Cipher
tagging = record {
  encrypt = λ p. (p, replicate 16 7);
  decrypt = λ c mac. some c;
  text = λ c. c;
  decrypt-encrypt = λ p. refl;
  text-take = λ n p. refl;
}

abbrev entry : List ℕ → Entry
entry key_value = entry_of idle tagging 1 key_value

-- A hash that was moved from another one, which is a copy
abbrev moved_copy : Hash idle
moved_copy = (move idle (copy idle (create idle))).0

made_idle_example :
    (moved_copy ≡ create idle)
    × (moved_copy.valid ≡ false)
    × (moved_copy.mac ≡ zeros)
    × (equal idle moved_copy zeros ≡ true)
    × ((src : List ℕ) → update_hash idle 3 moved_copy src ≡ some moved_copy)
made_idle_example =
    made_idle idle 3 5 moved_copy refl
      (Made.moved (copy idle (create idle)) (Made.copied (create idle) Made.created))

get-put-Missing_example :
    (bucket' : List Entry) × (r : RetValue) × (put idle tagging 3
        (entry (1 ∷ 2 ∷ []) ∷ [])
        zeros
        1
        (4 ∷ 5 ∷ [])
        (λ r. true)
      ≡ some (true, bucket', zeros))
    × (get idle tagging 3 bucket' zeros (4 ∷ []) ≡ some r)
    × (r.kv ≡ some (4 ∷ 5 ∷ []))
unfolding match_entry entry_of hash_from
get-put-Missing_example =
    get-put-Missing idle tagging 5 refl 3 (entry (1 ∷ 2 ∷ []) ∷ []) 1 (4 ∷ 5 ∷ []) (λ r. true)
      (refl, refl) refl (omega arith) (omega arith)

get-put-found_example :
    (new : Entry) × (r : RetValue) × (put idle tagging 3
        (entry (1 ∷ 2 ∷ []) ∷ entry (4 ∷ 5 ∷ []) ∷ entry (7 ∷ 8 ∷ []) ∷ [])
        zeros
        1
        (4 ∷ 6 ∷ [])
        (λ r. true)
      ≡ some (true, entry (1 ∷ 2 ∷ []) ∷ new ∷ entry (7 ∷ 8 ∷ []) ∷ [], zeros))
    × (get idle tagging 3 (entry (1 ∷ 2 ∷ []) ∷ new ∷ entry (7 ∷ 8 ∷ []) ∷ []) zeros (4 ∷ [])
        ≡ some r)
    × (r.kv ≡ some (4 ∷ 6 ∷ []))
unfolding match_entry entry_of hash_from
get-put-found_example =
    get-put-found idle tagging 5 refl 3 (entry (1 ∷ 2 ∷ [])) [] (entry (7 ∷ 8 ∷ []) ∷ [])
      (entry (4 ∷ 5 ∷ [])) 1 (4 ∷ 6 ∷ []) (4 ∷ 5 ∷ []) (λ r. true) (refl, refl) refl refl
      (omega arith) (omega arith)

put_first_lem_example :
    put idle tagging 3
      (entry (1 ∷ 2 ∷ []) ∷ entry (4 ∷ 5 ∷ []) ∷ [])
      zeros
      1
      (1 ∷ 6 ∷ [])
      (λ r. true)
    ≡ some (true, entry (1 ∷ 6 ∷ []) ∷ [], zeros)
unfolding match_entry entry_of hash_from
put_first_lem_example =
    put_first_lem idle tagging 5 refl 3 (entry (4 ∷ 5 ∷ []) ∷ []) (entry (1 ∷ 2 ∷ [])) 1
      (1 ∷ 6 ∷ []) (1 ∷ 2 ∷ []) (λ r. true) refl refl

-- A list with the values 7 and 8
abbrev two : NodeList ℕ
two = record {
  nodes = record { val = 8; next = none } ∷ record { val = 7; next = some 0 } ∷ [];
  head = some 1;
  count = 0;
}

two-Represents : Represents two (7 ∷ 8 ∷ [])
unfolding Chain
two-Represents = record {
  cells = (1, 7) ∷ (0, 8) ∷ [];
  chain = (refl, some 0, refl, (refl, none, refl, refl));
  apart = refl;
  holds = refl;
}

positions_refine_example :
    Inserted two (7 ∷ 8 ∷ []) (position two 1) 1 9
    × Inserted two (7 ∷ 8 ∷ []) (position two 2) 2 9
    × Erased two (7 ∷ 8 ∷ []) (position two 1) 1
positions_refine_example = positions_refine two (7 ∷ 8 ∷ []) 1 9 two-Represents (omega arith)
