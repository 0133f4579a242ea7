-- ===== src/Visitors/Hll/Laws.antt =====
-- A sketch is the highest `rho` at each index, so order and repetition of visitors change nothing.
use tonggeret.Base.{
  ℕ, zero, suc, ◌*◌, ◌%◌, ◌^◌, ◌<◌, ◌≤◌, ◌≡◌, refl, ap, sym, ◌∙◌, List, [], ◌∷◌, ◌++◌, max, ◌==◌,
  if◌then◌else◌, arith, length, All,
}
use tonggeret.Visitors.Hll.{Hll, hll_m, leading_zeros, index_of, rho_of, raise, add_hash, add_all}

-- `registers[i]`, 0 out of range
abbrev pub register : List ℕ → ℕ → ℕ
register [] i = 0
register (r ∷ rs) zero = r
register (r ∷ rs) (suc i) = register rs i

leading_zeros-le : (w n : ℕ) → leading_zeros w n ≤ w
unfolding leading_zeros
leading_zeros-le zero n = omega arith
leading_zeros-le (suc w) n = ground (arith, leading_zeros-le w n)

-- For a hash of 64 bits the index is one of the 4096, and the rank is between 1 and 65.
pub rho_bounds :
    (hash : ℕ) → hash < 2 ^ 64 → (index_of hash < hll_m) × (1 ≤ rho_of hash) × (rho_of hash ≤ 65)
unfolding index_of rho_of
rho_bounds hash h =
    let most = leading_zeros-le 64 (hash * 2 ^ 12 % 2 ^ 64) in
    (omega arith, omega arith, omega arith)

register-raise :
    (i rho j : ℕ) (rs : List ℕ)
    → i < length rs
    → register (raise i rho rs) j ≡ (if i == j then max (register rs j) rho else register rs j)
unfolding raise
register-raise i rho j [] h = absurd (omega arith)
register-raise zero rho zero (r ∷ rs) h = ground arith
register-raise zero rho (suc j) (r ∷ rs) h = ground arith
register-raise (suc i) rho zero (r ∷ rs) h = ground arith
register-raise (suc i) rho (suc j) (r ∷ rs) h = ground (arith, register-raise i rho j rs)

raise_comm : (i j a b : ℕ) (rs : List ℕ) → raise i a (raise j b rs) ≡ raise j b (raise i a rs)
unfolding raise
raise_comm i j a b [] = refl
raise_comm zero zero a b (r ∷ rs) = ap (λ x. x ∷ rs) (omega arith)
raise_comm zero (suc j) a b (r ∷ rs) = refl
raise_comm (suc i) zero a b (r ∷ rs) = refl
raise_comm (suc i) (suc j) a b (r ∷ rs) = ap (λ x. r ∷ x) (raise_comm i j a b rs)

raise_idem : (i a : ℕ) (rs : List ℕ) → raise i a (raise i a rs) ≡ raise i a rs
unfolding raise
raise_idem i a [] = refl
raise_idem zero a (r ∷ rs) = ap (λ x. x ∷ rs) (omega arith)
raise_idem (suc i) a (r ∷ rs) = ap (λ x. r ∷ x) (raise_idem i a rs)

length-raise : (i a : ℕ) (rs : List ℕ) → length (raise i a rs) ≡ length rs
unfolding raise
length-raise i a [] = refl
length-raise zero a (r ∷ rs) = refl
length-raise (suc i) a (r ∷ rs) = ap suc (length-raise i a rs)

add_hash_comm : (a b : ℕ) (h : Hll) → add_hash a (add_hash b h) ≡ add_hash b (add_hash a h)
unfolding add_hash
add_hash_comm a b h = ap (λ rs. record h { registers = rs }) (raise_comm _ _ _ _ h.registers)

pub add_hash_idem : (a : ℕ) (h : Hll) → add_hash a (add_hash a h) ≡ add_hash a h
unfolding add_hash
add_hash_idem a h = ap (λ rs. record h { registers = rs }) (raise_idem _ _ h.registers)

-- the highest rank among the hashes with an index
unfoldable pub highest : ℕ → List ℕ → ℕ
highest i [] = 0
highest i (hash ∷ hashes) = max (if index_of hash == i then rho_of hash else 0) (highest i hashes)

-- From a sketch with its 4096 registers, and for hashes of 64 bits, each register is the highest of
-- what it was and of the ranks of the hashes with its index.
pub register-add_all :
    (hashes : List ℕ) (h : Hll) (i : ℕ)
    → All (λ hash. hash < 2 ^ 64) hashes
    → length h.registers ≡ hll_m
    → register (add_all hashes h).registers i ≡ max (register h.registers i) (highest i hashes)
unfolding add_all add_hash highest
register-add_all [] h i _ full = omega arith
register-add_all (hash ∷ hashes) h i (small, others) full =
    let later =
      register-add_all hashes (add_hash hash h) i others (length-raise _ _ h.registers ∙ full) in
    let bounds = rho_bounds hash small in
    let now = register-raise (index_of hash) (rho_of hash) i h.registers (omega arith) in
    grind (arith, later, now)

pub add_all-add_hash :
    (hashes : List ℕ) (hash : ℕ) (h : Hll)
    → add_all hashes (add_hash hash h) ≡ add_hash hash (add_all hashes h)
unfolding add_all
add_all-add_hash [] hash h = refl
add_all-add_hash (other ∷ hashes) hash h =
    ap (add_all hashes) (add_hash_comm other hash h)
    ∙ add_all-add_hash hashes hash (add_hash other h)

-- A visitor counted before changes nothing, whoever came before, between and after.
pub add_hash-seen :
    (before : List ℕ) (hash : ℕ) (after : List ℕ) (h : Hll)
    → add_hash hash (add_all (before ++ (hash ∷ after)) h) ≡ add_all (before ++ (hash ∷ after)) h
unfolding add_all
add_hash-seen [] hash after h =
    sym (add_all-add_hash after hash (add_hash hash h)) ∙ ap (add_all after) (add_hash_idem hash h)
add_hash-seen (other ∷ before) hash after h = add_hash-seen before hash after (add_hash other h)
