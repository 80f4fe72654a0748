-- ===== src/Network/Client/IdlePeer/Choice.antt =====
-- Which peer `get_idle_peer` of src/network/client.rs chooses, and when it panics.
use pyrsia.Base.{
  ℕ, zero, suc, ◌≡◌, refl, ap, sym, ◌∙◌, subst, Bool, true, false, Option, none, some, List, [],
  ◌∷◌, ◌++◌, Bytes, arith, get_elem?, ◌⊎◌, inl, inr, Bool-cases, Option-cases,
}
use mathlib.Core.List.{append-nil, append_assoc}
use pyrsia.Outcome.{Outcome, ok, panicked}
use pyrsia.TransparencyLog.Database.{IsIn}
use pyrsia.Network.Types
use pyrsia.Network.Types.{PeerId, Command, request_idle_metric, failed}
use pyrsia.Network.Client.{CommandSender, ClientError, reply}
use pyrsia.Network.Client.IdlePeer.{
  Floats, IdleMetric, sort_by_metric, lowest, ask_peers, get_idle_peer,
}
use pyrsia.Network.Client.IdlePeer.Sorting.{
  FloatLaws, AllNumbers, IsLeast, sort_by_metric-head, sort_by_metric-numbers, sort_by_metric-cases,
}

-- A loop in which each peer answers with its metric, or with an error
abbrev pub answering : (PeerId → Option Bytes) → CommandSender (Unit {0})
answering metric_of = record {
  ask = λ c s. elim (c 0) [
    | request_idle_metric peer _ ↦ elim (metric_of peer) [
      | some metric ↦ (reply (Types.metric metric), s)
      | none ↦ (reply failed, s)
    ]
    | _ ↦ (reply failed, s)
  ];
  tell = λ c s. (true, s);
}

-- The metrics of the peers that answer with one
abbrev pub metrics_of : (PeerId → Option Bytes) → List PeerId → List IdleMetric
metrics_of metric_of [] = []
metrics_of metric_of (peer ∷ peers) = elim (metric_of peer) [
  | none ↦ metrics_of metric_of peers
  | some metric ↦ record { peer = peer; metric = metric } ∷ metrics_of metric_of peers
]

abbrev pub NoneBelow : Floats → List IdleMetric → Type 0
NoneBelow f [] = Unit {0}
NoneBelow f (x ∷ xs) = (f.below_threshold x.metric ≡ false) × NoneBelow f xs

module _ (f : Floats) (metric_of : PeerId → Option Bytes) where
  metrics_of-IsIn :
      (x : IdleMetric) (peers : List PeerId) (i : ℕ)
      → get_elem? (metrics_of metric_of peers) i ≡ some x
      → IsIn x.peer peers × (metric_of x.peer ≡ some x.metric)
  metrics_of-IsIn x [] i e = absurd (cc)
  metrics_of-IsIn x (p ∷ ps) zero e = elim (Option-cases (metric_of p)) [
    | inl nothing ↦
        let (at, m) = metrics_of-IsIn x ps 0 (ground (arith, nothing, e)) in ((suc at.0, at.1), m)
    | inr (m, some_m) ↦
        let same : record { peer = p; metric = m } ≡ x = ground (arith, some_m, e) in
        (
          (0, ap (λ (y : IdleMetric). some y.peer) same),
          ap (λ (y : IdleMetric). metric_of y.peer) (sym same)
              ∙ (some_m ∙ ap (λ (y : IdleMetric). some y.metric) same),
        )
  ]
  metrics_of-IsIn x (p ∷ ps) (suc i) e = elim (Option-cases (metric_of p)) [
    | inl nothing ↦
        let (at, m) = metrics_of-IsIn x ps (suc i) (ground (arith, nothing, e)) in
        ((suc at.0, at.1), m)
    | inr (m, some_m) ↦
        let (at, m') = metrics_of-IsIn x ps i (ground (arith, some_m, e)) in ((suc at.0, at.1), m')
  ]

  NoneBelow-rest :
      (q : PeerId) (qs : List PeerId)
      → NoneBelow f (metrics_of metric_of (q ∷ qs))
      → NoneBelow f (metrics_of metric_of qs)
  NoneBelow-rest q qs all = elim (Option-cases (metric_of q)) [
    | inl nothing ↦
        let shape : metrics_of metric_of (q ∷ qs) ≡ metrics_of metric_of qs =
          ground (arith, nothing) in
        subst (NoneBelow f) shape all
    | inr (m, some_m) ↦
        let shape : metrics_of metric_of (q ∷ qs)
            ≡ record { peer = q; metric = m } ∷ metrics_of metric_of qs =
          ground (arith, some_m) in
        (subst (NoneBelow f) shape all).1
  ]

  NoneBelow-metric :
      (p : PeerId) (m : Bytes) (peers : List PeerId)
      → NoneBelow f (metrics_of metric_of peers)
      → (i : ℕ) → get_elem? peers i ≡ some p
      → metric_of p ≡ some m
      → f.below_threshold m ≡ false
  NoneBelow-metric p m [] all i e some_m = absurd (cc)
  NoneBelow-metric p m (q ∷ qs) all zero e some_m =
      let same : q ≡ p = ground (arith, e) in
      let here : metric_of q ≡ some m = ap metric_of same ∙ some_m in
      let shape : metrics_of metric_of (q ∷ qs)
          ≡ record { peer = q; metric = m } ∷ metrics_of metric_of qs =
        ground (arith, here) in
      (subst (NoneBelow f) shape all).0
  NoneBelow-metric p m (q ∷ qs) all (suc i) e some_m =
      NoneBelow-metric p m qs (NoneBelow-rest q qs all) i e some_m

  -- The loop returns the first peer below the threshold, or goes through them all.
  ask_peers_lem :
      (ms : List IdleMetric) (peers : List PeerId)
      → ((p : PeerId) × (m : Bytes) × IsIn p peers
          × (metric_of p ≡ some m)
          × (f.below_threshold m ≡ true)
          × (ask_peers (answering metric_of) f ms peers tt ≡ (ok (some p), tt)))
        ⊎ (NoneBelow f (metrics_of metric_of peers)
            × (ask_peers (answering metric_of) f ms peers tt
                ≡ (lowest f (ms ++ metrics_of metric_of peers), tt)))
  unfolding ask_peers
  ask_peers_lem ms [] = inr (tt, ground (arith, append-nil ms))
  ask_peers_lem ms (p ∷ ps) = elim (Option-cases (metric_of p)) [
    | inl nothing ↦ elim (ask_peers_lem ms ps) [
      | inl (q, m, at, some_m, below, e) ↦
          inl (q, m, (suc at.0, at.1), some_m, below, ground (arith, nothing, e))
      | inr (higher, e) ↦ inr (ground (arith, nothing, higher), ground (arith, nothing, e))
    ]
    | inr (m, some_m) ↦ elim (Bool-cases (f.below_threshold m)) [
      | inl below ↦ inl (p, m, (0, refl), some_m, below, ground (arith, some_m, below))
      | inr high ↦
          let x : IdleMetric = record { peer = p; metric = m } in
          elim (ask_peers_lem (ms ++ x ∷ []) ps) [
            | inl (q, m', at, some_m', below, e) ↦
                inl (q, m', (suc at.0, at.1), some_m', below, ground (arith, some_m, high, e))
            | inr (higher, e) ↦
                let shape : metrics_of metric_of (p ∷ ps) ≡ x ∷ metrics_of metric_of ps =
                  ground (arith, some_m) in
                inr (
                  subst (NoneBelow f) (sym shape) (high, higher),
                  ground
                      (arith, some_m, high, e, append_assoc ms (x ∷ []) (metrics_of metric_of ps)),
                )
          ]
    ]
  ]

list_cases :
    (xs : List IdleMetric)
    → (xs ≡ []) ⊎ ((x : IdleMetric) × (rest : List IdleMetric) × (xs ≡ x ∷ rest))
list_cases [] = inl refl
list_cases (x ∷ xs) = inr (x, xs, refl)

sort_empty : (f : Floats) → sort_by_metric f [] ≡ ok []
unfolding sort_by_metric
sort_empty f = refl

-- What is chosen of some peers: nobody, if none answers with a metric; otherwise a peer with a metric
-- below the threshold, or, if there is none, one with the lowest metric.
abbrev pub IsChosen :
    Floats → (PeerId → Option Bytes) → List PeerId → Outcome ClientError (Option PeerId) → Type 0
IsChosen f metric_of peers answer =
    ((answer ≡ ok none) × (metrics_of metric_of peers ≡ []))
    ⊎ ((p : PeerId) × (m : Bytes) × (answer ≡ ok (some p))
        × IsIn p peers
        × (metric_of p ≡ some m)
        × ((f.below_threshold m ≡ true)
            ⊎ (NoneBelow f (metrics_of metric_of peers)
                × IsLeast f (record { peer = p; metric = m }) (metrics_of metric_of peers))))

-- With peers whose metrics, where they answer with one, are numbers, `get_idle_peer` does not panic
-- and chooses a peer that is below the threshold, or else one whose metric is at most any other's;
-- it chooses nobody only if no peer answers with a metric.
pub get_idle_peer_chooses :
    (f : Floats) (is_number : Bytes → Bool) (metric_of : PeerId → Option Bytes)
    (peers : List PeerId)
    → FloatLaws f is_number
    → AllNumbers is_number (metrics_of metric_of peers)
    → IsChosen f metric_of peers (get_idle_peer (answering metric_of) f peers tt).0
unfolding get_idle_peer lowest
get_idle_peer_chooses f is_number metric_of peers laws numbers =
    elim (ask_peers_lem f metric_of [] peers) [
      | inl (p, m, at, some_m, below, e) ↦ inr (p, m, ap (λ r. r.0) e, at, some_m, inl below)
      | inr (higher, e) ↦ elim (list_cases (metrics_of metric_of peers)) [
        | inl empty ↦ inl (ground (arith, e, empty, sort_empty f), empty)
        | inr (x, xs, shape) ↦
            let (z, zs, sorted, _, at, least) =
              sort_by_metric-head f is_number laws x xs
                (subst (AllNumbers is_number) shape numbers) in
            let at' : IsIn z (metrics_of metric_of peers) = subst (IsIn z) (sym shape) at in
            let (among, metric) = metrics_of-IsIn f metric_of z peers at'.0 at'.1 in
            inr (
              z.peer,
              z.metric,
              ground (arith, e, shape, sorted),
              among,
              metric,
              inr (higher, subst (IsLeast f z) (sym shape) least),
            )
      ]
    ]

-- If no peer is below the threshold, two or more answer, and one of the metrics is not a number,
-- then `get_idle_peer` panics.
pub get_idle_peer_nan :
    (f : Floats) (is_number : Bytes → Bool) (metric_of : PeerId → Option Bytes)
    (peers : List PeerId) (x y : IdleMetric) (rest : List IdleMetric)
    → FloatLaws f is_number
    → metrics_of metric_of peers ≡ x ∷ y ∷ rest
    → NoneBelow f (x ∷ y ∷ rest)
    → ¬ AllNumbers is_number (x ∷ y ∷ rest)
    → (get_idle_peer (answering metric_of) f peers tt).0 ≡ panicked
unfolding get_idle_peer lowest
get_idle_peer_nan f is_number metric_of peers x y rest laws shape higher bad =
    elim (ask_peers_lem f metric_of [] peers) [
      | inl (p, m, at, some_m, below, e) ↦
          let high =
            NoneBelow-metric f metric_of p m peers (subst (NoneBelow f) (sym shape) higher) at.0
              at.1 some_m in
          absurd (ground (arith, high, below))
      | inr (_, e) ↦ elim (sort_by_metric-cases f (x ∷ y ∷ rest)) [
        | inl (zs, sorted) ↦
            absurd (bad (sort_by_metric-numbers f is_number laws x y rest zs sorted))
        | inr panics ↦ ground (arith, e, shape, panics)
      ]
    ]
