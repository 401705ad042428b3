-- ===== src/Crypt/CbcHash.antt =====
-- `HashSsl` of src/include/crypt/hash_openssl.h, a code over AES in CBC mode, which nothing includes. OpenSSL's
-- calls are arguments; they are called with sizes below `INT_MAX`. AES-CBC takes 16 bytes of an IV, where the
-- class has 12; what OpenSSL reads behind them is not modelled.
pub mod Blocks
mod Tests
use avocado.Common.{
  ℕ, zero, suc, ◌+◌, ◌-◌, ◌*◌, ◌%◌, ◌^◌, Bool, true, false, not, ◌&&◌, Option, none, some, List, [],
  ◌∷◌, length, take, drop, replicate, ltb, leb, ◌==◌, if◌then◌else◌, ◌>>=◌,
}
use avocado.Common.Bytes.{read, write}
use avocado.Crypt.CipherSsl

-- What is used of OpenSSL; an update and an end write bytes, whether they fail or not.
pub record Evp : Type 1 where
  pub Ctx : Type 0
  pub new : Option Ctx
  pub init : Ctx → (key iv : List ℕ) → Bool × Ctx
  pub update : Ctx → List ℕ → Bool × List ℕ × Ctx
  pub decrypt_final : Ctx → Bool × List ℕ × Ctx
  pub copy : Ctx → Option Ctx → Ctx

abbrev pub block_size : ℕ
block_size = 16

-- `adjust_size`, up to a multiple of the block's size
unfoldable pub adjust_size : ℕ → ℕ
adjust_size org_size =
    if org_size % block_size == 0
    then org_size
    else (org_size + (block_size - org_size % block_size)) % 2 ^ 64

module _ (evp : Evp) where
  open evp use {Ctx, new, update, decrypt_final}

  pub record HashSsl : Type 0 where
    pub ctx : Option Ctx
    pub ok : Bool
    pub key : List ℕ
    pub iv : List ℕ
    pub hashblock : List ℕ
    pub offset : ℕ

  -- The constructors from a key and an IV, and from a `CipherSsl`
  unfoldable pub create : (key iv : List ℕ) → HashSsl
  create key iv =
      let fresh : HashSsl = record {
        ctx = none;
        ok = false;
        key = take 16 key;
        iv = take 12 iv;
        hashblock = replicate block_size 0;
        offset = 0;
      } in
      elim new [
        | none ↦ fresh
        | some c ↦
            let (ok, c') = evp.init c (take 16 key) (take 12 iv) in
            record fresh { ctx = some c'; ok = ok }
      ]

  unfoldable pub of_cipher : CipherSsl.CipherSsl → HashSsl
  unfolding create
  of_cipher c = create c.key c.iv

  -- `copy`, onto a hash whose key and IV stay, or whose context is null
  unfoldable pub copy : HashSsl → HashSsl → HashSsl
  copy h other = elim new [
    | none ↦ record h { ctx = none; ok = false }
    | some c ↦ record h {
      ctx = some (evp.copy c other.ctx);
      ok = other.ok;
      hashblock = other.hashblock;
      offset = other.offset;
    }
  ]

  -- The move constructor and assignment of a moved hash, with what is left of it
  unfoldable pub move : HashSsl → HashSsl × HashSsl
  move other = (other, record other { ctx = none; ok = false })

  -- One call of EVP_EncryptUpdate at a place of `hashblock`, with the bytes that it wrote; `none` is a null
  -- context, or a write behind the block.
  unfoldable pub feed : HashSsl → (at : ℕ) → List ℕ → Option (HashSsl × ℕ)
  feed h at src = do
    c ← h.ctx
    let (ok, out, c') = update c src
    block ← write at out h.hashblock
    some (record h { ctx = some c'; ok = ok; hashblock = block }, length out)

  -- The loop over whole blocks, and what is behind them; `none` is also the end of the fuel.
  unfoldable pub whole_blocks : ℕ → HashSsl → List ℕ → Option HashSsl
  whole_blocks zero h src = none
  whole_blocks (suc fuel) h src =
      let next : Option HashSsl = (do
        (h', len) ← feed h 0 (take block_size src)
        let rest = whole_blocks fuel h' (drop block_size src)
        if h'.ok then rest else some h') in
      let behind : Option HashSsl = (do
        (h', len) ← feed h 0 src
        some (if h'.ok then record h' { offset = len } else h')) in
      if leb block_size (length src) then next else if length src == 0 then some h else behind

  unfoldable pub update_hash : HashSsl → List ℕ → Option HashSsl
  unfolding whole_blocks
  update_hash h src = do
    let s =
        if ltb (length src) block_size
        then length src
        else (block_size + 2 ^ 64 - h.offset) % 2 ^ 64
    first ← read 0 s src
    (h', len) ← feed h h.offset first
    let rest = whole_blocks (length src + 1) h' (drop s src)
    if h'.ok then rest else some h'

  -- `end`; the assertion is off in a release build.
  unfoldable pub end_hash : HashSsl → Option HashSsl
  end_hash h = elim h.ctx [
    | none ↦ some (record h { hashblock = replicate block_size 0 })
    | some c ↦
        let (ok, out, c') = decrypt_final c in
        write h.offset out h.hashblock >>= λ block.
        some (record h { ctx = some c'; ok = ok; hashblock = block })
  ]
