-- ===== src/Security/Rbac/Separation.antt =====
-- What the role table keeps apart.
use soomsuite_agent.Prelude.{◌≡◌, refl, List, [], ◌∷◌, arith, contains, contains-append, any}
use soomsuite_agent.Security.Principal.{Role}
use soomsuite_agent.Security.Rbac.{P, p_enum, role_permissions, permissions_for}

-- A permission is held exactly when one of the roles grants it.
pub contains-permissions_for :
    (rs : List Role) (p : P)
    → contains (permissions_for rs) p ≡ any (λ r. contains (role_permissions r) p) rs
unfolding permissions_for
contains-permissions_for [] p = refl
contains-permissions_for (r ∷ rs) p = ground (
  arith,
  contains-append (role_permissions r) (permissions_for rs) p,
  contains-permissions_for rs p,
)
