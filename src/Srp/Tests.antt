-- ===== src/Srp/Tests.antt =====
-- A handshake in a small group.
use icloud_linux.Prelude.{
  ℕ, ◌+◌, ◌%◌, ◌^◌, ◌≡◌, refl, arith, List, [], ◌∷◌, none, some, codes, ◌||◌, ◌==◌, nat_eq,
  if◌then◌else◌,
}
use icloud_linux.Srp.{
  Primitives, SrpClient, multiplier, scrambler, private_key, proofs, process_challenge,
}
use icloud_linux.Srp.Agreement.{
  IsBigUint, IsClient, verifier, server_public, server_secret, process_challenge-server_secret,
}

-- A number is one byte, whatever its size; the hash is the sum.
abbrev sum : List ℕ → ℕ
sum [] = 0
sum (b ∷ bytes) = b + sum bytes

abbrev small : Primitives
small = record {
  sha256 = λ bytes. sum bytes ∷ [];
  pbkdf2 = λ iterations salt input. input;
  modpow = λ b e n. b ^ e % n;
  from_bytes_be = sum;
  to_bytes_be = λ m. m ∷ [];
}

small-IsBigUint : IsBigUint small
small-IsBigUint = record { power = λ b e n h. refl; bytes = λ m. omega arith }

abbrev alice : SrpClient
alice = record { n = 23; g = 5; a = 6; big_a = 8 }

alice-IsClient : IsClient alice
alice-IsClient = record { positive = omega arith; public = refl }

abbrev k : ℕ
k = multiplier small 23 5

abbrev v : ℕ
v = verifier 23 5 k (private_key small (3 ∷ []) (4 ∷ []))

abbrev big_b : ℕ
big_b = server_public 23 5 k v 15

abbrev u : ℕ
u = scrambler small 23 8 big_b

process_challenge-server_secret_example :
    process_challenge small alice (codes "me") (3 ∷ []) (4 ∷ []) (big_b ∷ []) ≡ (
      if big_b % 23 == 0 || u == 0
      then none
      else some (proofs small 23 5 (codes "me") (4 ∷ []) 8 big_b (server_secret 23 5 k v 15 u 8)))
process_challenge-server_secret_example =
    process_challenge-server_secret small small-IsBigUint alice alice-IsClient (codes "me") (3 ∷ [])
      (4 ∷ []) 15
