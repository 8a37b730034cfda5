-- ===== src/Incidents/Paths.antt =====
-- The shape of the lifecycle of src/revenue_sentinel/incidents/lifecycle.py.
use revenue_sentinel.Base.{ℕ, ◌+◌, ◌≤◌, ◌<◌, ◌≡◌, ◌↔◌, true, false, arith, List, [], ◌∷◌, length}
use revenue_sentinel.Domain.{
  IncidentStatus, detected, triaged, investigating, analyzed, strategized, awaiting_approval,
  executing, completed,
}
use revenue_sentinel.Incidents.{is_legal, is_terminal}

-- How far along the lifecycle a status is.
abbrev stage : IncidentStatus → ℕ
stage detected = 0
stage triaged = 1
stage investigating = 2
stage analyzed = 3
stage strategized = 4
stage awaiting_approval = 5
stage executing = 6
stage _ = 7

-- Any next status of a status that is not terminal.
abbrev onward : IncidentStatus → IncidentStatus
onward detected = triaged
onward triaged = investigating
onward investigating = analyzed
onward analyzed = strategized
onward strategized = executing
onward awaiting_approval = executing
onward _ = completed

-- The terminal statuses are exactly the ones that no edge leaves.
pub terminal_iff :
    (s : IncidentStatus) → (is_terminal s ≡ true) ↔ ((t : IncidentStatus) → is_legal s t ≡ false)
unfolding is_terminal is_legal
terminal_iff s = (λ h t. ground arith, λ h. ground (arith, h (onward s)))

legal-stage : (s t : IncidentStatus) → is_legal s t ≡ true → stage s < stage t
unfolding is_legal
legal-stage s t h = ground arith

-- The statuses that an incident goes through after `s`, each along an edge.
abbrev pub IsPath : IncidentStatus → List IncidentStatus → Type 0
IsPath s [] = Unit
IsPath s (t ∷ ts) = (is_legal s t ≡ true) × IsPath t ts

path-stage : (s : IncidentStatus) (ts : List IncidentStatus) → IsPath s ts → stage s + length ts ≤ 7
path-stage s [] h = ground arith
path-stage s (t ∷ ts) h = omega (arith, legal-stage s t h.0, path-stage t ts h.1)

-- The lifecycle has no cycle: from `detected` an incident makes at most seven moves, whatever they
-- are.
pub path-bounded : (ts : List IncidentStatus) → IsPath detected ts → length ts ≤ 7
path-bounded ts h = omega (arith, path-stage detected ts h)
