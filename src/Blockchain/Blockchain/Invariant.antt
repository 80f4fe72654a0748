-- ===== src/Blockchain/Blockchain/Invariant.antt =====
-- When a `Blockchain` of blockchain.rs is in order: the ordinals count up from 0, each block names
-- the hash of the one before it, each is sealed, and the directory holds the whole chain.
use pyrsia.Base.{
  ℕ, suc, ◌+◌, ◌≤◌, ◌≡◌, ◌∙◌, subst, true, some, List, [], ◌∷◌, ◌++◌, Bytes, arith, length,
  get_last?,
}
use pyrsia.Outcome.{ok}
use pyrsia.Blockchain.Types.{HashDigest, Block}
use pyrsia.Blockchain.Platform.{Platform}
use pyrsia.Blockchain.Crypto.{digest}
use pyrsia.Blockchain.Header
use pyrsia.Blockchain.Block
use pyrsia.Blockchain.Chain.Sequential.{IsSequential}
use pyrsia.Blockchain.Disk.{Directory, absent, file}
use pyrsia.Blockchain.Persistence.{IsSaved}
use pyrsia.Blockchain.Persistence.Saving.{IsWritten}
use pyrsia.Blockchain.Blockchain.{Blockchain}

-- The first block's parent hash is the given one, every other's is the hash of the block before.
abbrev pub IsLinked : HashDigest → List Block → Type 0
IsLinked parent [] = Unit {0}
IsLinked parent (b ∷ bs) = (b.header.parent_hash ≡ parent) × IsLinked b.header.hash bs

-- A block whose hash and root are those of its contents, and whose signature verifies.
pub record IsSealed (p : Platform) (b : Block) : Type 0 where
  pub hashed : Header.IsHashed p b.header
  pub rooted : Block.IsRooted p b
  pub verified : Block.verify {E = Unit {0}} p b ≡ ok true

abbrev pub AllSealed : Platform → List Block → Type 0
AllSealed p [] = Unit {0}
AllSealed p (b ∷ bs) = IsSealed p b × AllSealed p bs

pub record IsConsistent (p : Platform) (bc : Blockchain) : Type 0 where
  pub sequential : IsSequential 0 bc.chain.blocks
  pub linked : IsLinked (digest p []) bc.chain.blocks
  pub all_sealed : AllSealed p bc.chain.blocks
  pub saved : IsSaved p bc.directory 0 bc.chain.blocks
  pub clear : (k : ℕ) → length bc.chain.blocks ≤ k → bc.directory k ≡ absent

-- A block that names the hash of the last one, or the first parent, can follow.
abbrev pub IsNext : HashDigest → List Block → Block → Type 0
IsNext parent [] b = b.header.parent_hash ≡ parent
IsNext parent (x ∷ bs) b = IsNext x.header.hash bs b

pub IsNext-last :
    (parent : HashDigest) (bs : List Block) (last b : Block)
    → get_last? bs ≡ some last
    → b.header.parent_hash ≡ last.header.hash
    → IsNext parent bs b
IsNext-last parent [] last b e h = cc
IsNext-last parent (x ∷ []) last b e h = ground arith
IsNext-last parent (x ∷ y ∷ bs) last b e h = IsNext-last x.header.hash (y ∷ bs) last b e h

pub IsLinked-append :
    (parent : HashDigest) (bs : List Block) (b : Block)
    → IsLinked parent bs
    → IsNext parent bs b
    → IsLinked parent (bs ++ b ∷ [])
IsLinked-append parent [] b l h = (h, tt)
IsLinked-append parent (x ∷ bs) b l h = (l.0, IsLinked-append x.header.hash bs b l.1 h)

pub AllSealed-append :
    (p : Platform) (bs : List Block) (b : Block)
    → AllSealed p bs
    → IsSealed p b
    → AllSealed p (bs ++ b ∷ [])
AllSealed-append p [] b l h = (h, tt)
AllSealed-append p (x ∷ bs) b l h = (l.0, AllSealed-append p bs b l.1 h)

-- Writing the next file keeps the files of the chain and adds the new block to them.
pub IsSaved-append :
    (p : Platform) (n m : ℕ) (bs : List Block) (b : Block) (d d' : Directory)
    → m ≡ n + length bs
    → IsSaved p d n bs
    → IsWritten p m b d d'
    → IsSaved p d' n (bs ++ b ∷ [])
IsSaved-append p n m [] b d d' e s w = (
  subst (λ k. (bytes : Bytes) × (d' k ≡ file bytes) × (p.deserialize_block bytes ≡ some b))
      (omega arith) w.0,
  tt,
)
IsSaved-append p n m (x ∷ bs) b d d' e ((bytes, at, reads), s) w = (
  (bytes, w.1 n (omega arith) ∙ at, reads),
  IsSaved-append p (suc n) m bs b d d' (omega arith) s w,
)
