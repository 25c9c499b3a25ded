-- ===== src/Sync/Adds.antt =====
-- What a step of the sync adds to the records that a destination was sent.
use cloudquery_fork4devin.Base.{
  ◌≡◌, refl, ◌∙◌, sym, ap, String, List, [], ◌∷◌, ◌++◌, map, Option, none, some, Result, ok, err,
  ++_nil, ++_assoc, if◌then◌else◌, ◌==◌, arith,
}
use cloudquery_fork4devin.Arrow.Laws.{flatten}
use cloudquery_fork4devin.TableNameChanger.{TableNameChanger, LearnError}
use cloudquery_fork4devin.Sync.Host.{
  SendResult, Delivery, insert_to, delete_record_at, migrate_at, delete_stale_at, accepted,
  pipeline_closed, refused,
}
use cloudquery_fork4devin.Sync.Messages.{
  SyncError, State, Status, running, stopped, failed, ◌⟫◌, for_each, or_fail, learned, answer,
  answer_request, with_schema,
}

-- The records that a destination was sent, in order.
abbrev pub inserts_to : String → List Delivery → List String
inserts_to name [] = []
inserts_to name (insert_to d bytes ∷ log) =
    let rest = inserts_to name log in if d == name then bytes ∷ rest else rest
inserts_to name (delete_record_at d table filter ∷ log) = inserts_to name log
inserts_to name (migrate_at d force bytes ∷ log) = inserts_to name log
inserts_to name (delete_stale_at d table source sync_time ∷ log) = inserts_to name log

pub inserts_to-append :
    (name : String) (xs ys : List Delivery)
    → inserts_to name (xs ++ ys) ≡ inserts_to name xs ++ inserts_to name ys
inserts_to-append name [] ys = refl
inserts_to-append name (insert_to d bytes ∷ xs) ys = ground (arith, inserts_to-append name xs ys)
inserts_to-append name (delete_record_at d table filter ∷ xs) ys = inserts_to-append name xs ys
inserts_to-append name (migrate_at d force bytes ∷ xs) ys = inserts_to-append name xs ys
inserts_to-append name (delete_stale_at d table source sync_time ∷ xs) ys =
    inserts_to-append name xs ys

-- What a step that goes on adds to the records that a destination was sent.
pub record Adds (name : String) (f : State → State × Status) (bytes : List String) : Type 0 where
  pub adds :
      (s s' : State) → f s ≡ (s', running) → inserts_to name s'.log ≡ inserts_to name s.log ++ bytes

pub ⟫-running :
    (p : State × Status) (k : State → State × Status) (s' : State)
    → (p ⟫ k) ≡ (s', running)
    → (s : State) × (p ≡ (s, running)) × (k s ≡ (s', running))
⟫-running (s, running) k s' h = (s, refl, h)
⟫-running (s, stopped) k s' h = cc
⟫-running (s, failed e) k s' h = cc

abbrev pub Same : State × Status → State → Type 0
Same p s = p ≡ (s, running)

pub answer-running :
    (r : SendResult) (d : Delivery) (s s' : State)
    → Same (answer r d s) s'
    → s'.log ≡ s.log ++ d ∷ []
answer-running accepted d s s' h = ap (λ p. p.0.log) (sym h)
answer-running pipeline_closed d s s' h = cc
answer-running refused d s s' h = cc

pub answer_request-running :
    (r : SendResult) (d : Delivery) (s s' : State)
    → Same (answer_request r d s) s'
    → s'.log ≡ s.log ++ d ∷ []
answer_request-running accepted d s s' h = ap (λ p. p.0.log) (sym h)
answer_request-running pipeline_closed d s s' h = cc
answer_request-running refused d s s' h = cc

abbrev pub listed : Option String → List String
listed none = []
listed (some bytes) = bytes ∷ []

pub learned-running :
    (r : Result LearnError TableNameChanger) (s s' : State) → Same (learned r s) s' → s'.log ≡ s.log
learned-running (err e) s s' h = cc
learned-running (ok c) s s' h = ap (λ p. p.0.log) (sym h)

module _ (name : String) where
  pub Adds-nothing :
      (f : State → State) → ((s : State) → (f s).log ≡ s.log) → Adds name (λ s. (f s, running)) []
  Adds-nothing f h = record {
    adds = λ s s' e.
        ap (λ p. inserts_to name p.0.log) (sym e)
        ∙ (ap (inserts_to name) (h s) ∙ sym (++_nil (inserts_to name s.log)));
  }

  pub Adds-before :
      (f : State → State × Status) (g : State → State) (xs : List String)
      → ((s : State) → (g s).log ≡ s.log)
      → Adds name f xs
      → Adds name (λ s. f (g s)) xs
  Adds-before f g xs h hf = record {
    adds = λ s s' e. hf.adds (g s) s' e ∙ ap (λ l. inserts_to name l ++ xs) (h s);
  }

  pub Adds-⟫ :
      (f g : State → State × Status) (xs ys : List String)
      → Adds name f xs
      → Adds name g ys
      → Adds name (λ s. f s ⟫ g) (xs ++ ys)
  Adds-⟫ f g xs ys hf hg = record {
    adds = λ s s' e.
        let (t, first, second) = ⟫-running (f s) g s' e in
        hg.adds t s' second
        ∙ (ap (λ bs. bs ++ ys) (hf.adds s t first) ∙ ++_assoc (inserts_to name s.log) xs ys);
  }

  pub Adds-failed : (e : SyncError) (xs : List String) → Adds name (λ s. (s, failed e)) xs
  Adds-failed e xs = record { adds = λ s s' h. cc }

  pub Adds-or_fail :
      {A : Type 0} (o : Option A) (e : SyncError) (k : A → State → State × Status)
      (xs : List String)
      → ((x : A) → o ≡ some x → Adds name (k x) xs)
      → Adds name (or_fail o e k) xs
  Adds-or_fail none e k xs h = Adds-failed e xs
  Adds-or_fail (some x) e k xs h = h x refl

  pub Adds-with_schema :
      (o : Result SyncError String) (k : String → State → State × Status) (xs : List String)
      → ((b : String) → Adds name (k b) xs)
      → Adds name (with_schema o k) xs
  Adds-with_schema (err e) k xs h = Adds-failed e xs
  Adds-with_schema (ok b) k xs h = h b

  pub Adds-for_each :
      {A : Type 0} (f : A → State → State × Status) (bytes : A → List String)
      → ((x : A) → Adds name (f x) (bytes x))
      → (xs : List A) → Adds name (for_each f xs) (flatten (map bytes xs))
  Adds-for_each f bytes h [] = Adds-nothing (λ s. s) (λ s. refl)
  Adds-for_each f bytes h (x ∷ xs) =
      Adds-⟫ (f x) (for_each f xs) (bytes x) (flatten (map bytes xs)) (h x)
        (Adds-for_each f bytes h xs)
