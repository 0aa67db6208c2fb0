-- ===== src/Routes/Tree.antt =====
-- The entries of the route table, and the pages that the tree holds with the guards above them.
-- A page is guarded by its own `access` and by those of the groups around it: that is how umi's
-- access plugin reads the table.
use testkit_service.Prelude.{String, Bool, true, Option, none, some, List, [], ◌∷◌, ◌++◌}

pub record RouteEntry : Type 0 where
  pub key : Option String
  pub path : Option String
  pub name : Option String
  pub icon : Option String
  pub access : Option String
  pub redirect : Option String
  pub component : Option String
  pub layout : Bool

abbrev pub blank : RouteEntry
blank = record {
  key = none;
  path = none;
  name = none;
  icon = none;
  access = none;
  redirect = none;
  component = none;
  layout = true;
}

mutual
  pub data Route : Type 0 where
    leaf : RouteEntry → Route
    group : RouteEntry → Forest → Route

  pub data Forest : Type 0 where
    end : Forest
    add : Route → Forest → Forest

-- A leaf with the guards on the way to it.
pub record Page : Type 0 where
  pub entry : RouteEntry
  pub guards : List String

abbrev pub guarded : Option String → List String → List String
guarded none guards = guards
guarded (some flag) guards = flag ∷ guards

unfoldable mutual
  pub pages_of : List String → Route → List Page
  pages_of guards (leaf e) = record { entry = e; guards = guarded e.access guards } ∷ []
  pages_of guards (group e routes) = pages_below (guarded e.access guards) routes

  pub pages_below : List String → Forest → List Page
  pages_below guards end = []
  pages_below guards (add r rs) = pages_of guards r ++ pages_below guards rs

unfoldable pub all_pages : List Route → List Page
unfolding pages_of
all_pages [] = []
all_pages (r ∷ rs) = pages_of [] r ++ all_pages rs
