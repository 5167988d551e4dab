-- ===== src/Observed/Binding.antt =====
-- The domain of a store: `bindDomain` of go/sqlite/sqlite.go.
use juice_rail.Base.{◌≡◌, refl, ap, ◌⊎◌, inl, inr, ◌↔◌, Option, none, some, [], arith}
use juice_rail.Base.Lists.{eq_bytes_refl, eq_of_eq_bytes, Bytes, some-injective}
use juice_rail.Base.Error.{ok}
use juice_rail.Sql.{Tables}
use juice_rail.Observed.{claim, bound_or_refused, bind_domain}

-- The domain of a file that had the domain `bound`, once it was opened under `domain`.
abbrev first_of : Bytes → Option Bytes → Bytes
first_of domain none = domain
first_of domain (some bound) = bound

pub bound_iff :
    (domain : Bytes) (o : Option Bytes)
    → (bound_or_refused domain (claim domain o) ≡ ok tt) ↔ ((o ≡ none) ⊎ (o ≡ some domain))
unfolding claim bound_or_refused
bound_iff domain none = (λ h. inl refl, λ h. rw (eq_bytes_refl domain))
bound_iff domain (some bound) = (accepted, λ h. opened h)
  where
    accepted :
        bound_or_refused domain (claim domain (some bound)) ≡ ok tt
        → (some bound ≡ none) ⊎ (some bound ≡ some domain)
    accepted h = inr (ap some (eq_of_eq_bytes bound domain (ground arith)))

    opened :
        (some bound ≡ none) ⊎ (some bound ≡ some domain)
        → bound_or_refused domain (claim domain (some bound)) ≡ ok tt
    opened (inl h) = cc
    opened (inr h) = rw (some-injective h, eq_bytes_refl domain)

pub claimed : (domain : Bytes) (o : Option Bytes) → claim domain o ≡ some (first_of domain o)
unfolding claim
claimed domain none = refl
claimed domain (some bound) = refl

-- Where no statement fails, a file opens under a domain exactly if it was bound to none or to that
-- one, and from then on it is bound to the domain that it was first opened under.
bind_domain_once :
    (domain : Bytes) (t : Tables)
    → (((bind_domain domain (record { tables = t; faults = [] })).0 ≡ ok tt)
        ↔ ((t.domain ≡ none) ⊎ (t.domain ≡ some domain)))
      × ((bind_domain domain (record { tables = t; faults = [] })).1.tables.domain
          ≡ some (first_of domain t.domain))
unfolding bind_domain
bind_domain_once domain t = (bound_iff domain t.domain, claimed domain t.domain)
