-- ===== src/Monitor/Ports.antt =====
-- The ports that initEtcdSvc of pkg/monitor/prometheus.go gives the Service of a cluster.
use kstone.Base.{
  ℕ, suc, ◌+◌, ◌≤◌, ◌≡◌, refl, ◌∙◌, subst, Bool, true, false, Option, none, some, List, [], ◌∷◌,
  ◌++◌, length, length-append, arith, last?,
}
use kstone.Base.Text.{Text, text_eq}
use kstone.Base.Atoi.{int32}
use kstone.Api.{MemberStatus}
use kstone.Monitor.{ServicePort}
use kstone.Monitor.Generate.{
  url_port, port_name, is_last_name, next_port, service_port, service_ports,
}

-- The ports are numbered from 2379 + k, and no two neighbours have one name.
abbrev pub Numbered : ℕ → List ServicePort → Type 0
Numbered k [] = Unit
Numbered k (p ∷ ps) = (p.port ≡ int32 (2379 + k)) × Numbered (suc k) ps

abbrev pub Changing : List ServicePort → Type 0
Changing [] = Unit
Changing (p ∷ []) = Unit
Changing (p ∷ q ∷ ps) = (text_eq q.name p.name ≡ false) × Changing (q ∷ ps)

Numbered-append :
    (k n : ℕ) (ps : List ServicePort) (p : ServicePort)
    → k + length ps ≡ n
    → p.port ≡ int32 (2379 + n)
    → Numbered k ps
    → Numbered k (ps ++ p ∷ [])
Numbered-append k n [] p e h ns =
    let z : n ≡ k = omega arith in (subst (λ i. p.port ≡ int32 (2379 + i)) z h, tt)
Numbered-append k n (q ∷ ps) p e h (a, ns) = (a, Numbered-append (suc k) n ps p (omega arith) h ns)

Changing-append :
    (ps : List ServicePort) (p : ServicePort)
    → is_last_name p.name (last? ps) ≡ false
    → Changing ps
    → Changing (ps ++ p ∷ [])
unfolding is_last_name
Changing-append [] p h c = tt
Changing-append (q ∷ []) p h c = (h, tt)
Changing-append (q ∷ r ∷ ps) p h (a, c) = (a, Changing-append (r ∷ ps) p h c)

abbrev Good : ℕ → List ServicePort → Type 0
Good n ps = Numbered 0 ps × Changing ps × (length ps ≤ n)

service_ports-Good :
    (ms : List MemberStatus) (ps rs : List ServicePort) (count n : ℕ)
    → length ps ≡ count
    → Good n ps
    → service_ports ms ps count ≡ some rs
    → Good (n + length ms) rs
unfolding service_ports next_port
service_ports-Good [] ps rs count n e (a, b, l) h =
    let q : ps ≡ rs = cc in subst (Good (n + 0)) q (a, b, omega arith)
service_ports-Good (m ∷ ms) ps rs count n e g h =
    of (service_ports-Good ms ps) (λ port. service_ports-Good ms (added port)) (url_port m)
      (is_last_name (port_name m) (last? ps)) refl h
  where
    added : Text → List ServicePort
    added port = ps ++ service_port (port_name m) count port ∷ []

    of :
        ((rs : List ServicePort) (count n : ℕ)
          → length ps ≡ count
          → Good n ps
          → service_ports ms ps count ≡ some rs
          → Good (n + length ms) rs)
        → ((port : Text) (rs : List ServicePort) (count n : ℕ)
            → length (added port) ≡ count
            → Good n (added port)
            → service_ports ms (added port) count ≡ some rs
            → Good (n + length ms) rs)
        → (o : Option Text) (b : Bool) → is_last_name (port_name m) (last? ps) ≡ b
        → next_port b
            (service_ports ms ps count)
            (λ port. service_ports ms (added port) (suc count))
            o
          ≡ some rs
        → Good (n + length (m ∷ ms)) rs
    of skip add none b k h = absurd (cc)
    of skip add (some port) true k h = let (a, b, l) = skip rs count n e g h in (a, b, omega arith)
    of skip add (some port) false k h =
        let (a, b, l) = g in
        let p = service_port (port_name m) count port in
        let (x, y, z) =
          add port rs (suc count) (suc n) (length-append ps (p ∷ []) ∙ omega arith)
            (
              Numbered-append 0 count ps p (omega arith) refl a,
              Changing-append ps p k b,
              omega (arith, length-append ps (p ∷ [])),
            )
            h in
        (x, y, omega arith)

-- The ports of the Service are numbered consecutively from 2379, as 32-bit integers, in the order of
-- the members; no port has the name of the one before it, and there are no more ports than members.
pub service_ports-Numbered :
    (ms : List MemberStatus) (ps : List ServicePort)
    → service_ports ms [] 0 ≡ some ps
    → Numbered 0 ps × Changing ps × (length ps ≤ length ms)
service_ports-Numbered ms ps h =
    let (a, b, l) = service_ports-Good ms [] ps 0 0 refl (tt, tt, omega arith) h in
    (a, b, omega arith)
