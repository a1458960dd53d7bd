-- ===== src/Storage/Rows.antt =====
-- The outbox map: its ids rise in the order of insertion, so a visit in any order sorts the same.
use mathlib.Core.List.{Pairwise, Mem, mem-cons, not-mem-nil}
use mathlib.Core.Logic.Or
use native.Mathlib.Bridge.{le_prop}
use web_hook_project.Prelude.{
  ℕ, ◌^◌, ◌≤◌, ◌<◌, Bool, List, [], ◌∷◌, ◌++◌, none, some, ◌≡◌, ◌∙◌, refl, arith, keep, Map, values,
  get, put, put-new, nat_eq,
}
use web_hook_project.Prelude.Sorting.{
  Ranging, IsLess, sort_slice, insert_sorted, sort_slice-visit, Apart,
}
use web_hook_project.Domain.{OutboxEvent}
use web_hook_project.Storage.{by_id}

-- Ids above `lo`, each row under its own id, up to `hi`.
abbrev pub Rising : ℕ → ℕ → Map ℕ OutboxEvent → Type 0
Rising lo hi [] = lo ≤ hi
Rising lo hi ((k, ob) ∷ m) = (lo < k) × (ob.id ≡ k) × Rising k hi m

Rising-le : (lo hi : ℕ) (m : Map ℕ OutboxEvent) → Rising lo hi m → lo ≤ hi
Rising-le lo hi [] h = h
Rising-le lo hi ((k, ob) ∷ m) h = omega (arith, Rising-le k hi m h.2)

pub Rising-append :
    (lo hi k : ℕ) (ob : OutboxEvent) (m : Map ℕ OutboxEvent)
    → Rising lo hi m
    → hi < k
    → ob.id ≡ k
    → Rising lo k (m ++ (k, ob) ∷ [])
Rising-append lo hi k ob [] h lt e = (omega arith, e, omega arith)
Rising-append lo hi k ob ((j, x) ∷ m) h lt e = (h.0, h.1, Rising-append j hi k ob m h.2 lt e)

pub get_above : (lo hi k : ℕ) (m : Map ℕ OutboxEvent) → Rising lo hi m → hi < k → get k m ≡ none
unfolding get
get_above lo hi k [] h lt = refl
get_above lo hi k ((j, x) ∷ m) h lt = ground (arith, get_above j hi k m h.2, Rising-le j hi m h.2)

pub Rising-put :
    (lo hi k : ℕ) (ob old : OutboxEvent) (m : Map ℕ OutboxEvent)
    → Rising lo hi m
    → get k m ≡ some old
    → ob.id ≡ k
    → Rising lo hi (put k ob m)
unfolding get put
Rising-put lo hi k ob old [] h g e = cc
Rising-put lo hi k ob old ((j, x) ∷ m) h g e = ground (arith, Rising-put j hi k ob old m h.2)

pub get-id :
    (lo hi k : ℕ) (ob : OutboxEvent) (m : Map ℕ OutboxEvent)
    → Rising lo hi m
    → get k m ≡ some ob
    → ob.id ≡ k
unfolding get
get-id lo hi k ob [] h g = cc
get-id lo hi k ob ((j, x) ∷ m) h g = ground (arith, get-id j hi k ob m h.2)

-- Rows whose ids fit in an int64 that is not negative rise by `less64` too.
abbrev pub RisingRows : ℕ → List OutboxEvent → Type 0
RisingRows lo [] = Unit {0}
RisingRows lo (ob ∷ rows) = (lo < ob.id) × (ob.id < 2 ^ 63) × RisingRows ob.id rows

pub values-RisingRows :
    (lo hi : ℕ) (m : Map ℕ OutboxEvent) → Rising lo hi m → hi < 2 ^ 63 → RisingRows lo (values m)
values-RisingRows lo hi [] h b = tt
values-RisingRows lo hi ((k, ob) ∷ m) h b =
    ground (arith, values-RisingRows k hi m h.2 b, Rising-le k hi m h.2)

pub by_id-IsLess : IsLess by_id
by_id-IsLess = record {
  asymmetric = λ a b h. ground arith;
  transitive = λ a b c h k. ground arith;
  cotransitive = λ a b c h k. ground arith;
}

-- Every later row is above the bound.
RisingRows-above :
    (lo : ℕ) (rows : List OutboxEvent) (x : OutboxEvent)
    → RisingRows lo rows
    → Mem x rows
    → (lo < x.id) × (x.id < 2 ^ 63)
RisingRows-above lo [] x h m = absurd (not-mem-nil m)
RisingRows-above lo (ob ∷ rows) x h m =
    Or.elim (hlevel le_prop) (mem-cons.0 m) (λ e. rw e (h.0, h.1))
      (λ r. let (a, b) = RisingRows-above ob.id rows x h.2 r in (omega arith, b))

RisingRows-Apart :
    (lo : ℕ) (rows : List OutboxEvent) → RisingRows lo rows → Pairwise (Apart by_id) rows
RisingRows-Apart lo [] h = Pairwise.nil
RisingRows-Apart lo (ob ∷ rows) h =
    Pairwise.cons (λ x m. ground (arith, RisingRows-above ob.id rows x h.2 m))
      (RisingRows-Apart ob.id rows h.2)

RisingRows-weaken :
    (lo mid : ℕ) (rows : List OutboxEvent) → lo < mid → RisingRows mid rows → RisingRows lo rows
RisingRows-weaken lo mid [] lt h = tt
RisingRows-weaken lo mid (ob ∷ rows) lt h = (omega arith, h.1, h.2)

pub keep-RisingRows :
    (p : OutboxEvent → Bool) (lo : ℕ) (rows : List OutboxEvent)
    → RisingRows lo rows
    → RisingRows lo (keep p rows)
unfolding keep
keep-RisingRows p lo [] h = tt
keep-RisingRows p lo (ob ∷ rows) h =
    ground (arith, keep-RisingRows p ob.id rows h.2, RisingRows-weaken lo ob.id (keep p rows))

insert_sorted-below :
    (ob : OutboxEvent) (rows : List OutboxEvent)
    → ob.id < 2 ^ 63
    → RisingRows ob.id rows
    → insert_sorted by_id ob rows ≡ ob ∷ rows
unfolding insert_sorted
insert_sorted-below ob [] b h = refl
insert_sorted-below ob (x ∷ rows) b h = ground arith

sort_slice-RisingRows :
    (lo : ℕ) (rows : List OutboxEvent) → RisingRows lo rows → sort_slice by_id rows ≡ rows
unfolding sort_slice
sort_slice-RisingRows lo [] h = refl
sort_slice-RisingRows lo (ob ∷ rows) h =
    rw (sort_slice-RisingRows ob.id rows h.2) (insert_sorted-below ob rows h.1 h.2)

OutboxEvent-set : IsSet OutboxEvent
OutboxEvent-set = hlevel

-- Selecting and sorting the rows in any order of visits gives them in the order of their ids.
pub sort_slice-rows :
    (p : OutboxEvent → Bool) (r : Ranging OutboxEvent) (hi : ℕ) (m : Map ℕ OutboxEvent)
    → Rising 0 hi m
    → hi < 2 ^ 63
    → sort_slice by_id (keep p (r.visit (values m))) ≡ keep p (values m)
sort_slice-rows p r hi m h b =
    let rows = values-RisingRows 0 hi m h b in
    sort_slice-visit by_id by_id-IsLess OutboxEvent-set p r (values m)
      (RisingRows-Apart 0 (values m) rows)
    ∙ sort_slice-RisingRows 0 (keep p (values m)) (keep-RisingRows p 0 (values m) rows)

pub Rising-insert :
    (lo hi k : ℕ) (ob : OutboxEvent) (m : Map ℕ OutboxEvent)
    → Rising lo hi m
    → hi < k
    → ob.id ≡ k
    → Rising lo k (put k ob m)
Rising-insert lo hi k ob m h lt e =
    rw (put-new k ob m (get_above lo hi k m h lt)) (Rising-append lo hi k ob m h lt e)
