-- ===== src/Routes/Builtin.antt =====
-- What `create_factory_map` maps a location to: a route that does not depend on the config comes
-- first, then one of a StaticHandler block, then one of an ApiHandler block.
use server_spring.Base.{
  [], ◌∷◌, Bytes, codes, equal, equal_iff, Option, none, some, if◌then◌else◌, ◌≡◌, refl, sym, ◌∙◌,
  inl, inr, arith, Bool-cases,
}
use server_spring.StdMap.{StdMap, find, insert, alter, less, or_else, IsSorted}
use server_spring.StdMap.Laws.{find-insert, insert-IsSorted}
use server_spring.Config.Locations.{FilesystemMap}
use server_spring.Routes.{
  RequestHandlerFactory, error_factory, bad_request_factory, static_factory, api_factory, Routes,
  builtin_routes, insert_each, handler_map, create_factory_map,
}

-- the first that is there
abbrev pub otherwise {ℓ} : {A : Type ℓ} → Option A → Option A → Option A
otherwise none b = b
otherwise (some a) _ = some a

-- the factory that `factory` makes of the path of location `j`
abbrev pub made :
    (Bytes → Bytes → RequestHandlerFactory) → Bytes → Option Bytes → Option RequestHandlerFactory
made factory j none = none
made factory j (some path) = some (factory j path)

insert_each-IsSorted :
    (factory : Bytes → Bytes → RequestHandlerFactory) (m : StdMap Bytes) (routes : Routes)
    → IsSorted routes
    → IsSorted (insert_each factory m routes)
unfolding insert_each
insert_each-IsSorted factory [] routes s = s
insert_each-IsSorted factory ((k, path) ∷ m) routes s =
    insert_each-IsSorted factory m (insert k (factory k path) routes)
      (insert-IsSorted k (factory k path) routes s)

otherwise-none : {A : Type 0} (a : Option A) → otherwise a none ≡ a
otherwise-none none = refl
otherwise-none (some a) = refl

otherwise_assoc :
    {A : Type 0} (a b c : Option A) → otherwise (otherwise a b) c ≡ otherwise a (otherwise b c)
otherwise_assoc none b c = refl
otherwise_assoc (some a) b c = refl

step :
    (factory : Bytes → Bytes → RequestHandlerFactory) (k path j : Bytes) (m : StdMap Bytes)
    (routes : Routes)
    → IsSorted routes
    → otherwise (find j (insert k (factory k path) routes)) (made factory j (find j m))
      ≡ otherwise (find j routes) (made factory j (if equal k j then some path else find j m))
step factory k path j m routes s = elim (Bool-cases (equal k j)) [
  | inl e ↦
      let q : k ≡ j = ground (arith, e, equal_iff k j) in
      rw (find-insert j k (factory k path) routes s, e, q) (keeps (find j routes) (factory j path))
  | inr e ↦ rw (find-insert j k (factory k path) routes s, e) refl
]
  where
    keeps :
        (a : Option RequestHandlerFactory) (f : RequestHandlerFactory)
        → otherwise (some (or_else f a)) (made factory j (find j m)) ≡ otherwise a (some f)
    keeps none f = refl
    keeps (some a) f = refl

find-insert_each :
    (factory : Bytes → Bytes → RequestHandlerFactory) (m : StdMap Bytes) (routes : Routes)
    (j : Bytes)
    → IsSorted routes
    → find j (insert_each factory m routes) ≡ otherwise (find j routes) (made factory j (find j m))
unfolding insert_each find
find-insert_each factory [] routes j s = sym (otherwise-none (find j routes))
find-insert_each factory ((k, path) ∷ m) routes j s =
    find-insert_each factory m (insert k (factory k path) routes) j
      (insert-IsSorted k (factory k path) routes s)
    ∙ step factory k path j m routes s

builtin_routes-IsSorted : IsSorted builtin_routes
unfolding builtin_routes
builtin_routes-IsSorted = insert-IsSorted _ _ _ (
    insert-IsSorted _ _ _ (
      insert-IsSorted _ _ _ (
        insert-IsSorted _ _ _
          (insert-IsSorted _ _ _ (insert-IsSorted _ _ _ (insert-IsSorted _ _ _ tt))))))

-- A location has the factory of the routes that do not depend on the config where these have one,
-- else that of its StaticHandler block, else that of its ApiHandler block, else none.
pub find-create_factory_map :
    (m : FilesystemMap) (j : Bytes)
    → find j (create_factory_map m)
      ≡ otherwise (find j builtin_routes) (
          otherwise
            (made static_factory j (find j (handler_map (codes "StaticHandler") m)))
            (made api_factory j (find j (handler_map (codes "ApiHandler") m))))
unfolding create_factory_map
find-create_factory_map m j =
    let statics = handler_map (codes "StaticHandler") m in
    let s = insert_each-IsSorted static_factory statics builtin_routes builtin_routes-IsSorted in
    rw
      (
        find-insert_each api_factory (handler_map (codes "ApiHandler") m)
            (insert_each static_factory statics builtin_routes) j s,
        find-insert_each static_factory statics builtin_routes j builtin_routes-IsSorted,
      )
      (otherwise_assoc (find j builtin_routes) (made static_factory j (find j statics))
        (made api_factory j (find j (handler_map (codes "ApiHandler") m))))

-- "/" and "bad request" are there for every config.
pub error-IsFound :
    (m : FilesystemMap) → find (codes "/") (create_factory_map m) ≡ some error_factory
unfolding builtin_routes find insert alter less equal codes
error-IsFound m = find-create_factory_map m (codes "/")

pub refused-IsFound :
    (m : FilesystemMap)
    → find (codes "bad request") (create_factory_map m) ≡ some bad_request_factory
unfolding builtin_routes find insert alter less equal codes
refused-IsFound m = find-create_factory_map m (codes "bad request")
