-- ===== src/Server/Status/Board.antt =====
-- crates/drv-thru/src/server/status.rs: the registry as lists of request ids that a build moves
-- through, and what the search by an id does to such a list.
use drv_thru.Base.{
  ℕ, zero, suc, ◌+◌, ◌≡◌, refl, ap, ◌∙◌, Bool, true, false, List, [], ◌∷◌, ◌++◌, map, Option, none,
  some, take, if◌then◌else◌, ◌%◌, ◌^◌,
}
use drv_thru.Text.{Text, text_eq}
use drv_thru.Text.Prefix.{text_eq_sound}
use drv_thru.Server.Status.{MutableStatus, Env, remove_by, put_back, request_name}
use drv_thru.Server.Status.Calls.{Call, enqueues, starts, phases, finishes, beats}

-- The abstract registry: a queue and the builds that run, in order, and the history, last first.
pub record Board : Type 0 where
  pub seq : ℕ
  pub queue : List Text
  pub active : List Text
  pub recent : List Text
  pub limit : ℕ

abbrev pub board : MutableStatus → Board
board state = record {
  seq = state.next_request_seq;
  queue = map (λ q. q.request_id) state.snapshot.queued;
  active = map (λ a. a.request_id) state.snapshot.active;
  recent = map (λ r. r.request_id) state.snapshot.recent;
  limit = state.snapshot.server.recent_limit;
}

abbrev pub onto : Text → Option (List Text) → Option (List Text)
onto x none = none
onto x (some xs) = some (x ∷ xs)

-- The list without the first occurrence, if there is one.
unfoldable pub without : Text → List Text → Option (List Text)
unfolding text_eq
without id [] = none
without id (x ∷ xs) = let rest = without id xs in if text_eq x id then some xs else onto x rest

abbrev pub started : Text → Board → Option (List Text) → Board
started id b none = b
started id b (some queue) = record b { queue = queue; active = b.active ++ (id ∷ []) }

abbrev pub left_queue : Text → Board → Option (List Text) → Board
left_queue id b none = b
left_queue id b (some queue) = record b { queue = queue; recent = take b.limit (id ∷ b.recent) }

abbrev pub left_active : Text → Board → Option (List Text) → Option (List Text) → Board
left_active id b none queue = left_queue id b queue
left_active id b (some active) queue = record b {
  active = active;
  recent = take b.limit (id ∷ b.recent);
}

-- What each call does to the board when the clock can be read.
unfoldable pub moves : Call → Board → Board
unfolding without request_name
moves (enqueues env label installable) b =
    let seq = (b.seq + 1) % 2 ^ 64 in
    record b { seq = seq; queue = b.queue ++ (request_name seq ∷ []) }
moves (starts env id) b = started id b (without id b.queue)
moves (phases env id phase) b = b
moves (finishes env id result short_error) b =
    left_active id b (without id b.active) (without id b.queue)
moves (beats env) b = b

unfoldable pub clock : Call → Env
clock (enqueues env label installable) = env
clock (starts env id) = env
clock (phases env id phase) = env
clock (finishes env id result short_error) = env
clock (beats env) = env

-- `remove_by` on the ids.
abbrev pub left_ids {ℓ} : {A : Type ℓ} → (A → Text) → Option (A × List A) → Option (List Text)
left_ids id_of none = none
left_ids id_of (some (x, xs)) = some (map id_of xs)

left_ids-put_back {ℓ} :
    {A : Type ℓ} (id_of : A → Text) (x : A) (found : Option (A × List A))
    → left_ids id_of (put_back x found) ≡ onto (id_of x) (left_ids id_of found)
left_ids-put_back id_of x none = refl
left_ids-put_back id_of x (some (y, ys)) = refl

left_ids-if {ℓ} :
    {A : Type ℓ} (id_of : A → Text) (b : Bool) (p q : Option (A × List A))
    → left_ids id_of (if b then p else q) ≡ (if b then left_ids id_of p else left_ids id_of q)
left_ids-if id_of true p q = refl
left_ids-if id_of false p q = refl

pub without-map {ℓ} :
    {A : Type ℓ} (id_of : A → Text) (id : Text) (xs : List A)
    → left_ids id_of (remove_by id_of id xs) ≡ without id (map id_of xs)
unfolding remove_by without
without-map id_of id [] = refl
without-map id_of id (x ∷ xs) =
    left_ids-if id_of (text_eq (id_of x) id) (some (x, xs)) (put_back x (remove_by id_of id xs))
    ∙ ap (λ o. if text_eq (id_of x) id then some (map id_of xs) else o)
        (left_ids-put_back id_of x (remove_by id_of id xs)
          ∙ ap (onto (id_of x)) (without-map id_of id xs))

-- What `remove_by` takes has the id.
abbrev pub HasId {ℓ} : {A : Type ℓ} → (A → Text) → Text → Option (A × List A) → Type 0
HasId id_of id none = Unit
HasId id_of id (some (x, xs)) = id_of x ≡ id

HasId-put_back {ℓ} :
    {A : Type ℓ} (id_of : A → Text) (id : Text) (x : A) (found : Option (A × List A))
    → HasId id_of id found
    → HasId id_of id (put_back x found)
HasId-put_back id_of id x none h = tt
HasId-put_back id_of id x (some (y, ys)) h = h

HasId-if {ℓ} :
    {A : Type ℓ} (id_of : A → Text) (id : Text) (b : Bool) (p q : Option (A × List A))
    → (b ≡ true → HasId id_of id p)
    → HasId id_of id q
    → HasId id_of id (if b then p else q)
HasId-if id_of id true p q h k = h refl
HasId-if id_of id false p q h k = k

pub remove_by-HasId {ℓ} :
    {A : Type ℓ} (id_of : A → Text) (id : Text) (xs : List A)
    → HasId id_of id (remove_by id_of id xs)
unfolding remove_by
remove_by-HasId id_of id [] = tt
remove_by-HasId id_of id (x ∷ xs) =
    HasId-if id_of id (text_eq (id_of x) id) (some (x, xs)) (put_back x (remove_by id_of id xs))
      (text_eq_sound (id_of x) id)
      (HasId-put_back id_of id x (remove_by id_of id xs) (remove_by-HasId id_of id xs))

pub map-append {ℓ} :
    {A : Type ℓ} (f : A → Text) (xs ys : List A) → map f (xs ++ ys) ≡ map f xs ++ map f ys
map-append f [] ys = refl
map-append f (x ∷ xs) ys = ap (◌∷◌ (f x)) (map-append f xs ys)

pub map-take {ℓ} :
    {A : Type ℓ} (f : A → Text) (n : ℕ) (xs : List A) → map f (take n xs) ≡ take n (map f xs)
map-take f zero xs = refl
map-take f (suc n) [] = refl
map-take f (suc n) (x ∷ xs) = ap (◌∷◌ (f x)) (map-take f n xs)
