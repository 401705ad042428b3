-- ===== src/Server/Address.antt =====
-- The addresses of src/server.cpp: what it reads from `ip:port:threads` and from `ip:port`. A text is its
-- bytes without the final NUL.
use mathlib.Core.List.{append_assoc}
use avocado.Common.{
  ℕ, suc, ◌+◌, ◌-◌, ◌*◌, ◌%◌, ◌^◌, ◌≤◌, ◌<◌, ◌≡◌, ◌≢◌, refl, sym, ap, ◌∙◌, ◌&&◌, Option, none, some,
  List, [], ◌∷◌, ◌++◌, length, take, drop, leb, ◌==◌, if◌then◌else◌, arith,
}
use avocado.Common.Bytes.{take-length-append}

-- `find` and `rfind` of one byte; `none` is `npos`.
unfoldable pub find : ℕ → List ℕ → Option ℕ
find c [] = none
find c (x ∷ l) = if x == c then some 0 else elim (find c l) [ none ↦ none | some i ↦ some (suc i) ]

unfoldable pub rfind : ℕ → List ℕ → Option ℕ
rfind c [] = none
rfind c (x ∷ l) = elim (rfind c l) [
  | some i ↦ some (suc i)
  | none ↦ if x == c then some 0 else none
]

-- `rfind (c, pos)`: the last one that does not stand behind `pos`
unfoldable pub rfind_to : ℕ → List ℕ → Option ℕ → Option ℕ
unfolding rfind
rfind_to c l none = rfind c l
rfind_to c l (some pos) = rfind c (take (suc pos) l)

-- `atoll` of a text that starts with no space or sign, as far as its digits go, for a number below 2^63;
-- C leaves the result beyond that open.
unfoldable pub atoll : ℕ → List ℕ → ℕ
atoll acc [] = acc
atoll acc (c ∷ l) =
    let rest = atoll (acc * 10 + (c - b'0')) l in if leb b'0' c && leb c b'9' then rest else acc

unfoldable pub get_uri_from_server_info : List ℕ → List ℕ
unfolding rfind
get_uri_from_server_info svr_info = elim (rfind b':' svr_info) [
  | none ↦ svr_info
  | some i ↦ take i svr_info
]

-- The number behind a position; `npos + 1` is 0.
number_after : List ℕ → Option ℕ → ℕ
unfolding atoll
number_after uri none = atoll 0 uri
number_after uri (some i) = atoll 0 (drop (suc i) uri)

unfoldable pub get_id_from_addr : List ℕ → ℕ
unfolding find rfind_to number_after
get_id_from_addr uri = number_after uri (rfind_to b'.' uri (find b':' uri))

unfoldable pub get_n_threads_from_svr_info : List ℕ → ℕ
unfolding get_id_from_addr
get_n_threads_from_svr_info svr_info = get_id_from_addr svr_info

unfoldable pub get_session_id_from_id : ℕ → ℕ
get_session_id_from_id id = id * 2 ^ 24 % 2 ^ 64

-- No byte of a text is `c`.
abbrev pub Lacks : ℕ → List ℕ → Type 0
Lacks c [] = 0 ≤ 0
Lacks c (x ∷ l) = (x ≢ c) × Lacks c l

abbrev pub Digits : List ℕ → Type 0
Digits [] = 0 ≤ 0
Digits (x ∷ l) = (b'0' ≤ x) × (x ≤ b'9') × Digits l

-- The number that digits are
abbrev pub number : ℕ → List ℕ → ℕ
number acc [] = acc
number acc (x ∷ l) = number (acc * 10 + (x - b'0')) l

Digits-Lacks : (c : ℕ) (l : List ℕ) → Digits l → b'9' < c → Lacks c l
Digits-Lacks c [] h big = omega arith
Digits-Lacks c (x ∷ l) h big = (λ e. omega arith, Digits-Lacks c l h.2 big)

pub Digits-Lacks_below : (c : ℕ) (l : List ℕ) → Digits l → c < b'0' → Lacks c l
Digits-Lacks_below c [] h small = omega arith
Digits-Lacks_below c (x ∷ l) h small = (λ e. omega arith, Digits-Lacks_below c l h.2 small)

rfind-Lacks : (c : ℕ) (l : List ℕ) → Lacks c l → rfind c l ≡ none
unfolding rfind
rfind-Lacks c [] h = refl
rfind-Lacks c (x ∷ l) h = ground (arith, rfind-Lacks c l h.1, h.0)

rfind-append : (c : ℕ) (a b : List ℕ) → Lacks c b → rfind c (a ++ (c ∷ b)) ≡ some (length a)
unfolding rfind
rfind-append c [] b h = ground (arith, rfind-Lacks c b h)
rfind-append c (x ∷ a) b h = ground (arith, rfind-append c a b h)

find-append : (c : ℕ) (a b : List ℕ) → Lacks c a → find c (a ++ (c ∷ b)) ≡ some (length a)
unfolding find
find-append c [] b h = ground arith
find-append c (x ∷ a) b h = ground (arith, h.0, find-append c a b h.1)

atoll-number :
    (acc : ℕ) (l rest : List ℕ) → Digits l → atoll acc (l ++ (b':' ∷ rest)) ≡ number acc l
unfolding atoll
atoll-number acc [] rest h = refl
atoll-number acc (x ∷ l) rest h =
    ground (arith, h.0, h.1, atoll-number (acc * 10 + (x - b'0')) l rest h.2)

Lacks-append : (c : ℕ) (a b : List ℕ) → Lacks c a → Lacks c b → Lacks c (a ++ b)
Lacks-append c [] b ha hb = hb
Lacks-append c (x ∷ a) b ha hb = (ha.0, Lacks-append c a b ha.1 hb)

take-suc-append :
    (a : List ℕ) (x : ℕ) (b : List ℕ) → take (suc (length a)) (a ++ (x ∷ b)) ≡ a ++ (x ∷ [])
take-suc-append [] x b = refl
take-suc-append (y ∷ a) x b = ap (◌∷◌ y) (take-suc-append a x b)

drop-suc-append : (a : List ℕ) (x : ℕ) (b : List ℕ) → drop (suc (length a)) (a ++ (x ∷ b)) ≡ b
drop-suc-append [] x b = refl
drop-suc-append (y ∷ a) x b = drop-suc-append a x b

module _ (net octet : List ℕ) (hn : Lacks b':' net) (ho : Digits octet) where
  abbrev host : List ℕ
  host = net ++ (b'.' ∷ octet)

  host-append : (l : List ℕ) → host ++ l ≡ net ++ (b'.' ∷ (octet ++ l))
  host-append l = append_assoc net (b'.' ∷ octet) l

  colon :
      (rest : List ℕ) → find b':' (net ++ (b'.' ∷ (octet ++ (b':' ∷ rest)))) ≡ some (length host)
  colon rest =
      ap (find b':') (sym (host-append (b':' ∷ rest)))
      ∙ find-append b':' host rest (
          Lacks-append b':' net (b'.' ∷ octet) hn
            (λ e. omega arith, Digits-Lacks b':' octet ho (omega arith)))

  dot :
      (rest : List ℕ)
      → rfind b'.' (take (suc (length host)) (net ++ (b'.' ∷ (octet ++ (b':' ∷ rest)))))
        ≡ some (length net)
  dot rest =
      ap (λ l. rfind b'.' (take (suc (length host)) l)) (sym (host-append (b':' ∷ rest)))
      ∙ ap (rfind b'.') (take-suc-append host b':' rest ∙ host-append (b':' ∷ []))
      ∙ rfind-append b'.' net (octet ++ (b':' ∷ [])) (
          Lacks-append b'.' octet (b':' ∷ []) (Digits-Lacks_below b'.' octet ho (omega arith))
            (λ e. omega arith, omega arith))

  -- The id of an address is the last part in front of its first colon.
  get_id_lem :
      (rest : List ℕ) → get_id_from_addr (net ++ (b'.' ∷ (octet ++ (b':' ∷ rest)))) ≡ number 0 octet
  unfolding get_id_from_addr rfind_to number_after
  get_id_lem rest =
      let addr = net ++ (b'.' ∷ (octet ++ (b':' ∷ rest))) in
      ap (λ pos. number_after addr (rfind_to b'.' addr pos)) (colon rest)
      ∙ ap (number_after addr) (dot rest)
      ∙ ap (atoll 0) (drop-suc-append net b'.' (octet ++ (b':' ∷ rest)))
      ∙ atoll-number 0 octet rest ho

  -- Of `net.octet:port:threads`, the uri is all but the threads, and the id of the uri is the last part of
  -- the ip. What is taken for the number of threads is that part too, and not `threads`.
  pub server_info_lem :
      (port threads : List ℕ)
      → Digits threads
      → (get_uri_from_server_info (net ++ (b'.' ∷ (octet ++ (b':' ∷ (port ++ (b':' ∷ threads))))))
          ≡ net ++ (b'.' ∷ (octet ++ (b':' ∷ port))))
        × (get_id_from_addr (net ++ (b'.' ∷ (octet ++ (b':' ∷ port)))) ≡ number 0 octet)
        × (get_n_threads_from_svr_info
              (net ++ (b'.' ∷ (octet ++ (b':' ∷ (port ++ (b':' ∷ threads))))))
            ≡ number 0 octet)
  unfolding get_uri_from_server_info get_n_threads_from_svr_info
  server_info_lem port threads ht = (
    ap (λ l. elim (rfind b':' l) as (λ x. List ℕ) [ none ↦ l | some i ↦ take i l ]) parts
        ∙ rw (rfind-append b':' uri threads (Digits-Lacks b':' threads ht (omega arith)))
            (take-length-append uri (b':' ∷ threads)),
    get_id_lem port,
    get_id_lem (port ++ (b':' ∷ threads)),
  )
    where
      uri : List ℕ
      uri = net ++ (b'.' ∷ (octet ++ (b':' ∷ port)))

      parts :
          net ++ (b'.' ∷ (octet ++ (b':' ∷ (port ++ (b':' ∷ threads))))) ≡ uri ++ (b':' ∷ threads)
      parts =
          ap (λ l. net ++ (b'.' ∷ l)) (sym (append_assoc octet (b':' ∷ port) (b':' ∷ threads)))
          ∙ sym (append_assoc net (b'.' ∷ (octet ++ (b':' ∷ port))) (b':' ∷ threads))
