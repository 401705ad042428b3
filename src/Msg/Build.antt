-- ===== src/Msg/Build.antt =====
-- What a builder's calls leave in the message, and when they write out of the array.
use mathlib.Core.List.{append_assoc}
use avocado.Common.{
  ℕ, ◌+◌, ◌-◌, ◌%◌, ◌^◌, ◌≤◌, ◌<◌, ◌≡◌, refl, sym, ap, ◌∙◌, ◌↔◌, none, some, List, [], ◌∷◌, ◌++◌,
  length, drop, replicate, length-append, length-drop, length-replicate, arith, ◌>>=◌,
}
use avocado.Common.Bytes.{read, write, read-append, write-rest}
use avocado.Msg.Wire.{of_bytes_enough}
use avocado.Msg.{
  Msg, header_size, adjust_size, get_value_size, get_key, get_value, builder, add_key, add_value,
}

-- The message has this key and this value, and `room` more bytes in its array.
pub record Holds (m : Msg) (key value : List ℕ) (room : ℕ) : Type 0 where
  pub rest : List ℕ
  pub room_left : length rest ≡ room
  pub key_size : m.key_size ≡ length key
  pub size : m.size ≡ length key + length value
  pub layout : m.buf ≡ key ++ (value ++ rest)
  pub small : length key + length value + room < 2 ^ 63

pub builder-Holds : (n : ℕ) → n < 2 ^ 63 → (m : Msg) × (builder n ≡ some m) × Holds m [] [] n
unfolding builder
builder-Holds n h = (
  record { key_size = 0; size = 0; buf = drop header_size mem },
  rw (of_bytes_enough mem (omega (arith, length-replicate {A = ℕ} (adjust_size n) 0)), ◌>>=◌),
  record {
    rest = drop header_size mem;
    room_left =
        omega (arith, length-drop header_size mem, length-replicate {A = ℕ} (adjust_size n) 0);
    key_size = refl;
    size = omega arith;
    layout = refl;
    small = omega arith;
  },
)
  where
    mem : List ℕ
    mem = replicate (adjust_size n) 0

-- While there is no value, more key bytes join the key.
pub add_key-Holds :
    {m : Msg} {key : List ℕ} {room : ℕ} (more : List ℕ)
    → Holds m key [] room
    → length more ≤ room
    → (m' : Msg) × (add_key more m ≡ some m') × Holds m' (key ++ more) [] (room - length more)
unfolding add_key
add_key-Holds {m} {key} more h fits = (
  record {
    key_size = (m.key_size + length more) % 2 ^ 64;
    size = (m.size + length more) % 2 ^ 64;
    buf = key ++ (more ++ drop (length more) h.rest);
  },
  rw (wrote, ◌>>=◌),
  record {
    rest = drop (length more) h.rest;
    room_left = omega (arith, h, length-drop (length more) h.rest);
    key_size = omega (arith, h, length-append key more);
    size = omega (arith, h, length-append key more);
    layout = sym (append_assoc key more (drop (length more) h.rest));
    small = omega (arith, h, length-append key more);
  },
)
  where
    wrote : write m.key_size more m.buf ≡ some (key ++ (more ++ drop (length more) h.rest))
    wrote = rw h.layout (write-rest key more h.rest (sym h.key_size) (rw h.room_left fits))

pub add_value-Holds :
    {m : Msg} {key value : List ℕ} {room : ℕ} (more : List ℕ)
    → Holds m key value room
    → length more ≤ room
    → (m' : Msg) × (add_value more m ≡ some m') × Holds m' key (value ++ more) (room - length more)
unfolding add_value
add_value-Holds {m} {key} {value} more h fits = (
  record m {
    size = (m.size + length more) % 2 ^ 64;
    buf = key ++ (value ++ more ++ drop (length more) h.rest);
  },
  rw (wrote, ◌>>=◌),
  record {
    rest = drop (length more) h.rest;
    room_left = omega (arith, h, length-drop (length more) h.rest);
    key_size = h.key_size;
    size = omega (arith, h, length-append value more);
    layout = refl;
    small = omega (arith, h, length-append value more);
  },
)
  where
    wrote : write m.size more m.buf ≡ some (key ++ (value ++ more ++ drop (length more) h.rest))
    wrote =
        rw (h.layout, ← append_assoc key value h.rest)
          (write-rest (key ++ value) more h.rest (omega (arith, h, length-append key value))
              (rw h.room_left fits)
            ∙ ap some (append_assoc key value _ ∙ ap (◌++◌ key) (sym (append_assoc value more _))))

pub get_key-Holds :
    {m : Msg} {key value : List ℕ} {room : ℕ} → Holds m key value room → get_key m ≡ some key
unfolding get_key
get_key-Holds {m} {key} {value} h =
    rw (h.key_size, h.layout) (read-append [] key (value ++ h.rest) refl refl)

read_value :
    {m : Msg} {key value : List ℕ} {room : ℕ}
    → Holds m key value room
    → read m.key_size (m.size - m.key_size) m.buf ≡ some value
read_value {m} {key} {value} h =
    rw h.layout (read-append key value h.rest (sym h.key_size) (omega (arith, h)))

pub get_value-Holds :
    {m : Msg} {key value : List ℕ} {room : ℕ}
    → Holds m key value room
    → (get_value m ≡ some value) × (get_value_size m ≡ length value)
unfolding get_value get_value_size
get_value-Holds {value = []} h = ground (arith, h.key_size, h.size)
get_value-Holds {value = x ∷ xs} h = ground (arith, h.key_size, h.size, read_value h)

-- The whole chain of calls leaves a message that holds the two parts of the key and the value.
pub build-Holds :
    (max_size : ℕ) (key more value : List ℕ)
    → max_size < 2 ^ 63
    → length key + length more + length value ≤ max_size
    → (m : Msg) × (builder max_size >>= add_key key >>= add_key more >>= add_value value ≡ some m)
      × Holds m (key ++ more) value (max_size - length key - length more - length value)
build-Holds max_size key more value small fits =
    let (m₀, e₀, h₀) = builder-Holds max_size small in
    let (m₁, e₁, h₁) = add_key-Holds key h₀ (omega arith) in
    let (m₂, e₂, h₂) = add_key-Holds more h₁ (omega arith) in
    let (m₃, e₃, h₃) = add_value-Holds value h₂ (omega arith) in
    (m₃, rw (e₀, ◌>>=◌, e₁, e₂, e₃), h₃)

-- A key, a second part of the key and a value that fit the announced size are all read back, and
-- the message says how long they are.
pub build_lem :
    (max_size : ℕ) (key more value : List ℕ)
    → max_size < 2 ^ 63
    → length key + length more + length value ≤ max_size
    → (m : Msg) × (builder max_size >>= add_key key >>= add_key more >>= add_value value ≡ some m)
      × (get_key m ≡ some (key ++ more))
      × (get_value m ≡ some value)
      × (m.key_size ≡ length key + length more)
      × (m.size ≡ length key + length more + length value)
build_lem max_size key more value small fits =
    let (m, e, h) = build-Holds max_size key more value small fits in
    (
      m,
      e,
      get_key-Holds h,
      (get_value-Holds h).0,
      omega (arith, h.key_size, length-append key more),
      omega (arith, h.size, length-append key more),
    )

-- `add_value` writes past the array exactly if the bytes are more than the room that is left, and
-- `add_key` exactly if they are more than that room and the value together.
pub overflow_iff :
    {m : Msg} {key value : List ℕ} {room : ℕ} (more : List ℕ)
    → Holds m key value room
    → ((add_value more m ≡ none) ↔ (room < length more))
      × ((add_key more m ≡ none) ↔ (length value + room < length more))
unfolding add_key add_value write
overflow_iff {m} {key} {value} more h = ground (arith, length_buf, h.key_size, h.size, h.room_left)
  where
    length_buf : length m.buf ≡ length key + (length value + length h.rest)
    length_buf =
        rw h.layout (omega (arith, length-append key (value ++ h.rest), length-append value h.rest))
