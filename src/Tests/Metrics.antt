-- ===== src/Tests/Metrics.antt =====
-- Metrics of one byte, where no byte is not a number, and the theorems on the idle peer.
use pyrsia.Base.{
  ℕ, ◌≡◌, ◌≢◌, refl, Bool, true, false, Option, none, some, List, [], ◌∷◌, Bytes, arith, ltb, ◌==◌,
  if◌then◌else◌,
}
use pyrsia.Network.Types.{PeerId}
use pyrsia.Network.Client.IdlePeer.{Floats, Order, less, equal, greater, get_idle_peer, IdleMetric}
use pyrsia.Network.Client.IdlePeer.Sorting.{FloatLaws, AllNumbers}
use pyrsia.Network.Client.IdlePeer.Choice.{answering, IsChosen, get_idle_peer_chooses}

abbrev order : ℕ → ℕ → Order
order a b = if ltb a b then less else if a == b then equal else greater

abbrev compare_bytes : Bytes → Bytes → Option Order
compare_bytes (a ∷ _) (b ∷ _) = some (order a b)
compare_bytes [] b = none
compare_bytes (a ∷ _) [] = none

abbrev low : Bytes → Bool
low [] = false
low (a ∷ _) = ltb a 5

abbrev pub floats : Floats
floats = record { below_threshold = low; partial_cmp = compare_bytes }

abbrev is_number : Bytes → Bool
is_number [] = false
is_number (_ ∷ _) = true

compares :
    (a b : Bytes)
    → is_number a ≡ true
    → is_number b ≡ true
    → (o : Order) × (compare_bytes a b ≡ some o)
compares [] b h k = absurd (cc)
compares (a ∷ _) [] h k = absurd (cc)
compares (a ∷ _) (b ∷ _) h k = (order a b, refl)

opposite : (a b : Bytes) → compare_bytes a b ≡ some greater → compare_bytes b a ≡ some less
opposite [] b h = absurd (cc)
opposite (a ∷ _) [] h = absurd (cc)
opposite (a ∷ _) (b ∷ _) h = ground arith

transitive :
    (a b c : Bytes)
    → is_number b ≡ true
    → compare_bytes a b ≢ some greater
    → compare_bytes b c ≢ some greater
    → compare_bytes a c ≢ some greater
transitive [] b c n h k = λ e. cc
transitive (a ∷ _) [] c n h k = absurd (cc)
transitive (a ∷ _) (b ∷ _) [] n h k = λ e. cc
transitive (a ∷ _) (b ∷ _) (c ∷ _) n h k = λ e. ground arith

not_a_number :
    (a b : Bytes) → is_number a ≡ false → (compare_bytes a b ≡ none) × (compare_bytes b a ≡ none)
not_a_number [] [] h = (refl, refl)
not_a_number [] (b ∷ _) h = (refl, refl)
not_a_number (a ∷ _) b h = absurd (cc)

float_laws : FloatLaws floats is_number
float_laws = record {
  compares = compares;
  opposite = opposite;
  transitive = transitive;
  not_a_number = not_a_number;
}

-- Each peer answers with its text.
abbrev metric_of : PeerId → Option Bytes
metric_of peer = some peer

abbrev two_peers : List PeerId
two_peers = (9 ∷ []) ∷ (8 ∷ []) ∷ []

get_idle_peer_chooses_example :
    IsChosen floats metric_of two_peers (get_idle_peer (answering metric_of) floats two_peers tt).0
get_idle_peer_chooses_example =
    get_idle_peer_chooses floats is_number metric_of two_peers float_laws (refl, (refl, tt))

abbrev first : IdleMetric
first = record { peer = 9 ∷ []; metric = 9 ∷ [] }

abbrev bad : IdleMetric
bad = record { peer = []; metric = [] }

bad_numbers : ¬ AllNumbers is_number (first ∷ bad ∷ [])
bad_numbers (_, (h, _)) = cc
