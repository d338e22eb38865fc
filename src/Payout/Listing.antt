-- ===== src/Payout/Listing.antt =====
-- `list_payouts` of queue_manager.py.
use media_center.Prelude.{
  ℕ, String, ◌≡◌, refl, true, Option, some, List, [], ◌∷◌, map, arith, Member, here, there,
  Member-select, select-Member, eq_iff, ap, sym,
}
use mathlib.Core.Path.{subst}
use media_center.Prelude.Sort.{IsSortedBy, sorted_by-IsSortedBy, Member-sorted_by, sorted_by-Member}
use media_center.Dict.{
  Key, Dict, HasUniqueKeys, insert-HasUniqueKeys, insert, lookup, lookup-Member, Member-lookup,
}
use media_center.Payout.Types.{PayoutQueueItem, PayoutStatus}
use media_center.Platform.{Platform}
use media_center.Payout.Change.{Change}
use media_center.Payout.Change.History.{
  Operation, perform, perform_all, perform-Change, empty_gateway,
}
use media_center.Payout.State.{Gateway, list_payouts, is_listed, entry_value, status_is}

abbrev pub created : PayoutQueueItem → ℕ
created v = v.created_at

Member-map :
    {A B : Type 0} (f : A → B) (xs : List A) {y : B}
    → Member y (map f xs)
    → (x : A) × Member x xs × (f x ≡ y)
Member-map f [] m = elim m [ ]
Member-map f (x ∷ xs) (here e) = (x, here refl, sym e)
Member-map f (x ∷ xs) (there m) = let (z, m', e) = Member-map f xs m in (z, there m', e)

map-Member :
    {A B : Type 0} (f : A → B) (xs : List A) {x : A} → Member x xs → Member (f x) (map f xs)
map-Member f [] m = elim m [ ]
map-Member f (x ∷ xs) (here e) = here (ap f e)
map-Member f (x ∷ xs) (there m) = there (map-Member f xs m)

-- A list of payouts is in the order of their creation, and holds exactly the payouts of the tenant
-- that have the status asked for, if one is.
pub record IsListing (t : String) (s : Option PayoutStatus) (g : Gateway) (l : List PayoutQueueItem)
    : Type 0 where
  pub in_order : IsSortedBy created l
  pub sound :
      (v : PayoutQueueItem)
      → Member v l
      → (i : String) × (lookup (t, i) g.payouts ≡ some v) × (status_is s v.status ≡ true)
  pub complete :
      (i : String) (v : PayoutQueueItem)
      → lookup (t, i) g.payouts ≡ some v
      → status_is s v.status ≡ true
      → Member v l

IsListing-of_unique :
    (t : String) (s : Option PayoutStatus) (g : Gateway)
    → HasUniqueKeys g.payouts
    → IsListing t s g (list_payouts t s g)
unfolding list_payouts
IsListing-of_unique t s g u = record {
  in_order = sorted_by-IsSortedBy created _;
  sound = λ v m.
      let (((t', i), w), listed, same) = Member-map entry_value _ (Member-sorted_by created _ m) in
      let (stands, wanted) = Member-select (is_listed t s) g.payouts listed in
      of_entry v t' i w stands wanted same;
  complete = λ i v found wanted. sorted_by-Member created _ (
      map-Member entry_value _ (
        select-Member (is_listed t s) g.payouts (lookup-Member (t, i) g.payouts found)
          (ground (arith, eq_iff t t, wanted))));
}
  where
    of_entry :
        (v : PayoutQueueItem) (t' i : String) (w : PayoutQueueItem)
        → Member ((t', i), w) g.payouts
        → is_listed t s ((t', i), w) ≡ true
        → w ≡ v
        → (i : String) × (lookup (t, i) g.payouts ≡ some v) × (status_is s v.status ≡ true)
    of_entry v t' i w stands wanted same = (
      i,
      (let own : t' ≡ t = ground (arith, eq_iff t' t, wanted) in
          let found : lookup (t', i) g.payouts ≡ some w =
            Member-lookup (t', i) g.payouts u stands in
          rw (sym own, sym same) found),
      rw (sym same) (ground (arith, wanted)),
    )

at_insert :
    (k : Key) (w : PayoutQueueItem) (d : Dict PayoutQueueItem) {d' : Dict PayoutQueueItem}
    → HasUniqueKeys d
    → d' ≡ insert k w d
    → HasUniqueKeys d'
at_insert k w d u e = subst HasUniqueKeys (sym e) (insert-HasUniqueKeys k w d u)

Change-HasUniqueKeys :
    {t : String} {d d' : Dict PayoutQueueItem} → Change t d d' → HasUniqueKeys d → HasUniqueKeys d'
Change-HasUniqueKeys {t} {d} (Change.same e) u = subst HasUniqueKeys (sym e) u
Change-HasUniqueKeys {t} {d} (Change.added v f own n e) u = at_insert _ _ d u e
Change-HasUniqueKeys {t} {d} (Change.vetoed k v at hash id found q early e) u = at_insert _ _ d u e
Change-HasUniqueKeys {t} {d} (Change.confirmed k v c found q n r e) u = at_insert _ _ d u e
Change-HasUniqueKeys {t} {d} (Change.readied k v at found q x e) u = at_insert _ _ d u e
Change-HasUniqueKeys {t} {d} (Change.executed_at k v at w found x e) u = at_insert _ _ d u e
Change-HasUniqueKeys {t} {d} (Change.synced k v w found x e) u = at_insert _ _ d u e

perform_all-HasUniqueKeys :
    (p : Platform) (ops : List Operation) (g : Gateway)
    → HasUniqueKeys g.payouts
    → HasUniqueKeys (perform_all p ops g).payouts
unfolding perform_all
perform_all-HasUniqueKeys p [] g u = u
perform_all-HasUniqueKeys p (op ∷ ops) g u =
    perform_all-HasUniqueKeys p ops (perform p op g)
      (Change-HasUniqueKeys (perform-Change p op g) u)

-- After any sequence of calls on a new gateway, `list_payouts` gives the tenant's payouts that have
-- the status asked for, or all of the tenant's payouts if no status is, every one of them and no
-- other payout, in the order of their creation.
pub list_payouts-IsListing :
    (p : Platform) (ops : List Operation) (t : String) (s : Option PayoutStatus)
    → let g = perform_all p ops empty_gateway in IsListing t s g (list_payouts t s g)
list_payouts-IsListing p ops t s =
    IsListing-of_unique t s _ (perform_all-HasUniqueKeys p ops empty_gateway tt)
