-- ===== src/Srp.antt =====
-- crates/icloud-api/src/srp.rs: the SRP-6a client. SHA-256, PBKDF2 and the big numbers of `num_bigint`
-- are parameters; a `BigUint` itself is a natural number. Hashing several parts is hashing them one
-- behind the other. Where `secret` comes from (the random generator) is not modelled.
pub mod Powers
pub mod Agreement
mod Tests
use Prim.Native.Nat.{bit_xor}
use icloud_linux.Prelude.{
  ℕ, zero, suc, ◌+◌, ◌*◌, ◌-◌, ◌/◌, ◌%◌, Bool, ◌&&◌, ◌||◌, List, [], ◌∷◌, ◌++◌, Option, none, some,
  Text, codes, length, ltb, leb, ◌==◌, nat_eq, text_eq, if◌then◌else◌,
}
use icloud_linux.Mirror.Files.{zeros}

-- `N_HEX`
abbrev pub n_2048 : ℕ
n_2048 =
    0xAC6BDB41324A9A9BF166DE5E1389582FAF72B6651987EE07FC3192943DB56050A37329CBB4A099ED8193E0757767A13DD52312AB4B03310DCD7F48A9DA04FD50E8083969EDB767B0CF6095179A163AB3661A05FBD5FAAAE82918A9962F0B93B855F97993EC975EEAA80D740ADBF4FF747359D041D5C33EA71D281E446B14773BCA97B43A23FB801676BD207A436C6481F1D2B9078717461A5B9D32E688F87748544523B524B0D57D5EA77A2775D2ECFA032CFBDBF52FB3786160279004E57AE6AF874E7303CE53299CCC041C7BC308D82A5698F3A8D0C38271AE35F8E9DBFBB694B5C803D89F7AE435DE236D525F54759B65E372FCD68EF20FA7111F9E4AFF73

-- What `ring` and `num_bigint` provide. `pbkdf2` takes the number of rounds, the salt and the input.
pub record Primitives : Type 0 where
  pub sha256 : List ℕ → List ℕ
  pub pbkdf2 : ℕ → List ℕ → List ℕ → List ℕ
  pub modpow : ℕ → ℕ → ℕ → ℕ
  pub from_bytes_be : List ℕ → ℕ
  pub to_bytes_be : ℕ → List ℕ

pub data Protocol : Type 0 where
  s2k s2k_fo : Protocol

-- `Protocol::parse`
unfoldable pub parse_protocol : Text → Option Protocol
parse_protocol name =
    if name == codes "s2k" then some s2k else if name == codes "s2k_fo" then some s2k_fo else none

-- `{:x}` of a number below 16.
abbrev hex_digit : ℕ → ℕ
hex_digit d = if ltb d 10 then 48 + d else 87 + d

unfoldable pub hex_lower : List ℕ → Text
hex_lower [] = []
hex_lower (b ∷ bytes) = hex_digit (b / 16) ∷ hex_digit (b % 16) ∷ hex_lower bytes

abbrev pub max_pbkdf2_iterations : ℕ
max_pbkdf2_iterations = 5000000

abbrev is_reasonable : ℕ → Bool
is_reasonable iterations = ltb 0 iterations && leb iterations max_pbkdf2_iterations

unfoldable pub pad : List ℕ → ℕ → List ℕ
pad bytes width = zeros (width - length bytes) ++ bytes

-- The exclusive or of two hashes, byte by byte.
unfoldable pub xor_bytes : List ℕ → List ℕ → List ℕ
xor_bytes [] bs = []
xor_bytes (a ∷ xs) [] = []
xor_bytes (a ∷ xs) (b ∷ bs) = bit_xor a b ∷ xor_bytes xs bs

pub record SrpClient : Type 0 where
  pub n : ℕ
  pub g : ℕ
  pub a : ℕ
  pub big_a : ℕ

pub record Proof : Type 0 where
  pub m1 : List ℕ
  pub m2 : List ℕ

module _ (p : Primitives) where
  abbrev stretch_input : Protocol → Text → List ℕ
  stretch_input s2k password = p.sha256 password
  stretch_input s2k_fo password = hex_lower (p.sha256 password)

  unfoldable pub derive_password : Text → List ℕ → ℕ → Protocol → Option (List ℕ)
  derive_password password salt iterations protocol =
      if is_reasonable iterations
      then some (p.pbkdf2 iterations salt (stretch_input protocol password))
      else none

  unfoldable pub from_secret : List ℕ → SrpClient
  from_secret secret =
      let a = p.from_bytes_be secret in
      record { n = n_2048; g = 2; a = a; big_a = p.modpow 2 a n_2048 }

  abbrev pub to_bytes : ℕ → List ℕ
  to_bytes m = if m == 0 then [] else p.to_bytes_be m

  abbrev pub to_uint : List ℕ → ℕ
  to_uint bytes = p.from_bytes_be bytes

  unfoldable pub public_a : SrpClient → List ℕ
  public_a c = to_bytes c.big_a

  abbrev pub h_n_xor_g : ℕ → ℕ → List ℕ
  h_n_xor_g n g =
      xor_bytes (p.sha256 (to_bytes n)) (p.sha256 (pad (to_bytes g) (length (to_bytes n))))

  -- `k`
  abbrev pub multiplier : ℕ → ℕ → ℕ
  multiplier n g = to_uint (p.sha256 (to_bytes n ++ pad (to_bytes g) (length (to_bytes n))))

  -- `u`
  abbrev pub scrambler : ℕ → ℕ → ℕ → ℕ
  scrambler n big_a big_b =
      let width = length (to_bytes n) in
      to_uint (p.sha256 (pad (to_bytes big_a) width ++ pad (to_bytes big_b) width))

  -- `x`
  abbrev pub private_key : List ℕ → List ℕ → ℕ
  private_key derived_password salt =
      to_uint (p.sha256 (salt ++ p.sha256 (codes ":" ++ derived_password)))

  -- The proofs for a shared secret.
  abbrev pub proofs : ℕ → ℕ → Text → List ℕ → ℕ → ℕ → ℕ → Proof
  proofs n g username salt big_a big_b secret =
      let key = p.sha256 (to_bytes secret) in
      let m1 = p.sha256 (
        h_n_xor_g n g
        ++ (p.sha256 username ++ (salt ++ (to_bytes big_a ++ (to_bytes big_b ++ key))))) in
      record { m1 = m1; m2 = p.sha256 (to_bytes big_a ++ (m1 ++ key)) }

  -- `s`; the subtraction does not go below 0, since the product is below `n`.
  unfoldable pub shared_secret : SrpClient → ℕ → ℕ → ℕ → ℕ → ℕ
  shared_secret c k u x big_b =
      let kv = (k * p.modpow c.g x c.n) % c.n in
      let base = (big_b % c.n + c.n - kv) % c.n in p.modpow base (c.a + u * x) c.n

  unfoldable pub process_challenge : SrpClient → Text → List ℕ → List ℕ → List ℕ → Option Proof
  process_challenge c username derived_password salt server_public =
      let big_b = to_uint server_public in
      let u = scrambler c.n c.big_a big_b in
      let x = private_key derived_password salt in
      if big_b % c.n == 0
      then none
      else if u == 0
      then none
      else some (
          proofs c.n c.g username salt c.big_a big_b
            (shared_secret c (multiplier c.n c.g) u x big_b))
