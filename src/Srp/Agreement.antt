-- ===== src/Srp/Agreement.antt =====
-- The client agrees with a server that keeps the verifier of the same password.
use native.Mathlib.Nat.{add-mul-mod_self_left, div-add-mod, mul_comm, mod-mod, mod-lt, mul-suc}
use icloud_linux.Prelude.{
  ℕ, suc, ◌+◌, ◌-◌, ◌*◌, ◌/◌, ◌%◌, ◌^◌, ◌<◌, ◌||◌, ◌≡◌, sym, ap, ◌∙◌, arith, List, none, some, Text,
  ◌==◌, nat_eq, if◌then◌else◌,
}
use icloud_linux.Srp.{
  n_2048, from_secret, Primitives, SrpClient, multiplier, scrambler, private_key, proofs,
  shared_secret, process_challenge,
}
use icloud_linux.Srp.Powers.{pow-mul, pow-add, mod-mul-mod, mul-mod-mod, mod-pow-mod}

-- The documented behaviour of `BigUint`.
pub record IsBigUint (p : Primitives) : Type 0 where
  pub power : (b e n : ℕ) → 0 < n → p.modpow b e n ≡ b ^ e % n
  pub bytes : (m : ℕ) → p.from_bytes_be (p.to_bytes_be m) ≡ m

-- A client as `from_secret` makes one, for any group.
pub record IsClient (c : SrpClient) : Type 0 where
  pub positive : 0 < c.n
  pub public : c.big_a ≡ c.g ^ c.a % c.n

-- The server of SRP-6a, by the group's arithmetic. It keeps the verifier `v` and chooses `b`.
module _ (n g k : ℕ) where
  abbrev pub verifier : ℕ → ℕ
  verifier x = g ^ x % n

  abbrev pub server_public : ℕ → ℕ → ℕ
  server_public v b = (k * v + g ^ b) % n

  abbrev pub server_secret : ℕ → ℕ → ℕ → ℕ → ℕ
  server_secret v b u big_a = (big_a * v ^ u) ^ b % n

-- What is added to a number below the modulus and taken off again.
subtract_back : (k G n : ℕ) → 0 < n → ((k + G) % n % n + n - k % n) % n ≡ G % n
subtract_back k G n h =
    sym (add-mul-mod_self_left ((k + G) % n % n + n - k % n) n ((k + G) / n))
    ∙ (ap (λ x. x % n) same ∙ add-mul-mod_self_left G n (suc (k / n)))
  where
    same : (k + G) % n % n + n - k % n + n * ((k + G) / n) ≡ G + n * suc (k / n)
    same =
        rw (mod-mod (k + G) n, mul-suc n (k / n))
          (omega (arith, div-add-mod k n, div-add-mod (k + G) n, mod-lt k h))

-- Both sides come to the same power of the generator.
client_power : (g a b u x n : ℕ) → (g ^ b % n) ^ (a + u * x) % n ≡ g ^ (b * (a + u * x)) % n
client_power g a b u x n =
    mod-pow-mod (g ^ b) (a + u * x) n ∙ ap (λ y. y % n) (pow-mul g b (a + u * x))

server_power : (g a b u x n : ℕ) → (g ^ a % n * (g ^ x % n) ^ u) ^ b % n ≡ g ^ (b * (a + u * x)) % n
server_power g a b u x n =
    sym (mod-pow-mod (g ^ a % n * (g ^ x % n) ^ u) b n)
    ∙ (ap (λ y. y ^ b % n) inner
        ∙ (mod-pow-mod (g ^ (a + x * u)) b n
            ∙ ap (λ y. y % n) (pow-mul g (a + x * u) b ∙ ap (λ y. g ^ y) swapped)))
  where
    inner : (g ^ a % n * (g ^ x % n) ^ u) % n ≡ g ^ (a + x * u) % n
    inner =
        mod-mul-mod (g ^ a) ((g ^ x % n) ^ u) n
        ∙ (sym (mul-mod-mod (g ^ a) ((g ^ x % n) ^ u) n)
            ∙ (ap (λ y. (g ^ a * y) % n) (mod-pow-mod (g ^ x) u n)
                ∙ (mul-mod-mod (g ^ a) ((g ^ x) ^ u) n
                    ∙ ap (λ y. y % n)
                        (ap (λ y. g ^ a * y) (pow-mul g x u) ∙ sym (pow-add g a (x * u))))))

    swapped : (a + x * u) * b ≡ b * (a + u * x)
    swapped = mul_comm (a + x * u) b ∙ ap (λ y. b * (a + y)) (mul_comm x u)

module _ (p : Primitives) (law : IsBigUint p) (c : SrpClient) (is_client : IsClient c) where
  shared_secret-server_secret :
      (k u x b : ℕ)
      → shared_secret p c k u x (server_public c.n c.g k (verifier c.n c.g k x) b)
        ≡ server_secret c.n c.g k (verifier c.n c.g k x) b u c.big_a
  unfolding shared_secret
  shared_secret-server_secret k u x b =
      law.power _ (c.a + u * x) c.n is_client.positive
      ∙ (ap
            (λ v.
              ((server_public c.n c.g k (verifier c.n c.g k x) b % c.n + c.n - (k * v) % c.n) % c.n)
                ^ (c.a + u * x)
              % c.n)
            (law.power c.g x c.n is_client.positive)
          ∙ (ap (λ y. y ^ (c.a + u * x) % c.n)
                (subtract_back (k * verifier c.n c.g k x) (c.g ^ b) c.n is_client.positive)
              ∙ (client_power c.g c.a b u x c.n
                  ∙ (sym (server_power c.g c.a b u x c.n)
                      ∙ ap (λ y. (y * verifier c.n c.g k x ^ u) ^ b % c.n)
                          (sym is_client.public)))))

  -- The client answers the challenge of a server that keeps the verifier of the same password with the
  -- proof `m1` that this server computes, and expects from it the `m2` that this server sends: both
  -- have the same secret. It gives up exactly if the server's public value is a multiple of the group's
  -- modulus or the scrambler is zero. Powers and byte strings of big numbers are as documented.
  pub process_challenge-server_secret :
      (username : Text) (derived_password salt : List ℕ) (b : ℕ)
      → let k = multiplier p c.n c.g in
        let v = verifier c.n c.g k (private_key p derived_password salt) in
        let big_b = server_public c.n c.g k v b in
        let u = scrambler p c.n c.big_a big_b in
        process_challenge p c username derived_password salt (p.to_bytes_be big_b) ≡ (
          if big_b % c.n == 0 || u == 0
          then none
          else some (
              proofs p c.n c.g username salt c.big_a big_b (server_secret c.n c.g k v b u c.big_a)))
  unfolding process_challenge
  process_challenge-server_secret username derived_password salt b =
      let k = multiplier p c.n c.g in
      let x = private_key p derived_password salt in
      let big_b = server_public c.n c.g k (verifier c.n c.g k x) b in
      rw (law.bytes big_b)
        (ground (arith, shared_secret-server_secret k (scrambler p c.n c.big_a big_b) x b))

pub from_secret-IsClient :
    (p : Primitives) → IsBigUint p → (secret : List ℕ) → IsClient (from_secret p secret)
unfolding from_secret
from_secret-IsClient p law secret = record {
  positive = omega arith;
  public = law.power 2 (p.from_bytes_be secret) n_2048 (omega arith);
}
