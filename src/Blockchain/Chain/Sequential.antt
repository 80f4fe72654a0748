-- ===== src/Blockchain/Chain/Sequential.antt =====
-- The invariant that structures/chain.rs states beside its field: the blocks are sorted by their
-- ordinals. The ordinals count up by one from a first one.
use pyrsia.Base.{
  ℕ, zero, suc, ◌+◌, ◌≡◌, subst, some, List, [], ◌∷◌, ◌++◌, arith, length, get_elem?, get_last?,
  take, drop,
}
use pyrsia.Blockchain.Types.{Block}

abbrev pub IsSequential : ℕ → List Block → Type 0
IsSequential n [] = Unit {0}
IsSequential n (b ∷ bs) = (b.header.ordinal ≡ n) × IsSequential (suc n) bs

pub IsSequential-get :
    (n i : ℕ) (bs : List Block) (b : Block)
    → IsSequential n bs
    → get_elem? bs i ≡ some b
    → b.header.ordinal ≡ n + i
IsSequential-get n i [] b s e = cc
IsSequential-get n zero (x ∷ bs) b s e = ground arith
IsSequential-get n (suc i) (x ∷ bs) b s e = omega (arith, IsSequential-get (suc n) i bs b s.1 e)

pub IsSequential-last :
    (n : ℕ) (bs : List Block) (b : Block)
    → IsSequential n bs
    → get_last? bs ≡ some b
    → suc b.header.ordinal ≡ n + length bs
IsSequential-last n [] b s e = cc
IsSequential-last n (x ∷ []) b s e = ground arith
IsSequential-last n (x ∷ y ∷ bs) b s e = omega (arith, IsSequential-last (suc n) (y ∷ bs) b s.1 e)

pub IsSequential-append :
    (n : ℕ) (bs : List Block) (b : Block)
    → IsSequential n bs
    → b.header.ordinal ≡ n + length bs
    → IsSequential n (bs ++ b ∷ [])
IsSequential-append n [] b s e = (omega arith, tt)
IsSequential-append n (x ∷ bs) b s e = (s.0, IsSequential-append (suc n) bs b s.1 (omega arith))

pub IsSequential-take : (n k : ℕ) (bs : List Block) → IsSequential n bs → IsSequential n (take k bs)
IsSequential-take n zero bs s = tt
IsSequential-take n (suc k) [] s = tt
IsSequential-take n (suc k) (x ∷ bs) s = (s.0, IsSequential-take (suc n) k bs s.1)

pub IsSequential-drop :
    (n k m : ℕ) (bs : List Block) → m ≡ k + n → IsSequential n bs → IsSequential m (drop k bs)
IsSequential-drop n zero m bs e s = subst (λ x. IsSequential x bs) (omega arith) s
IsSequential-drop n (suc k) m [] e s = tt
IsSequential-drop n (suc k) m (x ∷ bs) e s = IsSequential-drop (suc n) k m bs (omega arith) s.1
