-- ===== src/TenantList/Capabilities.antt =====
-- Switching a tenant's capabilities: the set that is kept, and the drawers beside the table.
use testkit_service.Prelude.{
  String, Bool, true, false, Option, List, [], ◌∷◌, ◌++◌, ◌≡◌, refl, ◌==◌, arith, not, ◌&&◌, ◌||◌,
  if◌then◌else◌, eq_iff, includes, get_or,
}
use testkit_service.TenantList.{distinct, set_add, set_delete, switched}

includes-append :
    (xs : List String) (x k : String) → includes (xs ++ x ∷ []) k ≡ includes xs k || x == k
includes-append [] x k = ground arith
includes-append (y ∷ ys) x k = ground (arith, includes-append ys x k)

pub includes-delete :
    (x : String) (xs : List String) (k : String)
    → includes (set_delete x xs) k ≡ not (x == k) && includes xs k
unfolding set_delete
includes-delete x [] k = ground arith
includes-delete x (y ∷ ys) k =
    ground (arith, eq_iff x y, eq_iff x k, eq_iff y k, includes-delete x ys k)

pub includes-distinct : (xs : List String) (k : String) → includes (distinct xs) k ≡ includes xs k
unfolding distinct set_delete
includes-distinct [] k = refl
includes-distinct (x ∷ xs) k =
    ground (arith, includes-delete x (distinct xs) k, includes-distinct xs k)

pub includes-add :
    (x : String) (xs : List String) (k : String)
    → includes (set_add x xs) k ≡ (x == k || includes xs k)
unfolding set_add
includes-add x xs k = ground (arith, eq_iff x k, includes-append xs x k)

-- What a switch leaves: the service itself as it was switched, and every other service as it was.
pub includes-switched :
    (service : String) (enabled : Bool) (caps : Option (List String)) (k : String)
    → includes (switched service enabled caps) k
      ≡ (if service == k then enabled else includes (get_or caps []) k)
unfolding switched
includes-switched service true caps k = ground (
  arith,
  includes-add service (distinct (get_or caps [])) k,
  includes-distinct (get_or caps []) k,
)
includes-switched service false caps k = ground (
  arith,
  includes-delete service (distinct (get_or caps [])) k,
  includes-distinct (get_or caps []) k,
)
