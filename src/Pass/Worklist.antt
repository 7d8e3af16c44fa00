-- ===== src/Pass/Worklist.antt =====
-- The specification of the command's work on cones: a cone is opened for an output port, found by
-- the search of another cone, and finished, in any order.
use Prim.Native.Nat.{◌%◌, ◌^◌}
use tamara.Util.Connections.{Ptr, get_rtlil_name}
use tamara.Cone.Search.Tally.{inserted_bit}
use tamara.Common.{
  List, ◌++◌, Bool, String, arith, false, ℕ, ◌≡◌, [], ltb, true, ◌&&◌, ◌+◌, ◌==◌, ◌∷◌, str_eq, bit,
  length, length-append, ◌<◌, refl,
}
use tamara.Rtlil.Platform.{Platform}

module _ (p : Platform) where
  open p use {name_set}

  -- a cone to work on: its id, the object at its output, and whether another cone found it
  pub record Job : Type 0 where
    pub id : ℕ
    pub obj : Ptr p
    pub found : Bool

  abbrev pub name_of : Job → String
  name_of j = get_rtlil_name p j.obj

  pub record Board : Type 0 where
    pub pending : List Job
    pub finished : List Job
    pub next_id : ℕ
    pub explored : name_set.Set

  infix 40 ◌⟶◌ ◌⟶*◌
  pub data ◌⟶◌ : Board → Board → Type 0 where
    open_output :
        (b : Board) (x : Ptr p)
        → b ⟶ record b {
          pending = record { id = b.next_id; obj = x; found = false } ∷ b.pending;
          next_id = (b.next_id + 1) % 2 ^ 32;
        }
    discover :
        (b : Board) (x : Ptr p)
        → name_set.contains b.explored (get_rtlil_name p x) ≡ false
        → b ⟶ record b {
          pending = b.pending ++ record { id = b.next_id; obj = x; found = true } ∷ [];
          next_id = (b.next_id + 1) % 2 ^ 32;
          explored = name_set.insert (get_rtlil_name p x) b.explored;
        }
    finish :
        (b : Board) (before : List Job) (j : Job) (after : List Job)
        → b.pending ≡ before ++ j ∷ after
        → b ⟶ record b { pending = before ++ after; finished = b.finished ++ j ∷ [] }

  pub data ◌⟶*◌ : Board → Board → Type 0 where
    here : {b : Board} → b ⟶* b
    onward : {a b c : Board} → a ⟶ b → b ⟶* c → a ⟶* c

  pub ⟶*-trans : {a b c : Board} → a ⟶* b → b ⟶* c → a ⟶* c
  ⟶*-trans here rest = rest
  ⟶*-trans (onward step more) rest = onward step (⟶*-trans more rest)

  -- how many jobs pass a test
  abbrev pub count : (Job → Bool) → List Job → ℕ
  count test [] = 0
  count test (j ∷ js) = bit (test j) + count test js

  count-append :
      (test : Job → Bool) (js ks : List Job) → count test (js ++ ks) ≡ count test js + count test ks
  count-append test [] ks = omega arith
  count-append test (j ∷ js) ks = omega (arith, count-append test js ks)

  abbrev pub has_id : ℕ → Job → Bool
  has_id k j = j.id == k

  -- found, and of an object of this name
  abbrev pub is_found : String → Job → Bool
  is_found name j = j.found && str_eq (name_of j) name

  abbrev pub jobs : Board → ℕ
  jobs b = length b.pending + length b.finished

  -- each id that was given out belongs to exactly one job, and no other id to any
  pub record Numbered (start b : Board) : Type 0 where
    pub counted : b.next_id ≡ start.next_id + jobs b
    pub unique :
        (k : ℕ)
        → count (has_id k) b.pending + count (has_id k) b.finished + bit (ltb k start.next_id)
          ≡ bit (ltb k b.next_id)

  -- Since the board stood at `start`, the ids are in order unless the counter came to its end, and
  -- each name that was explored belongs to exactly one found job, and no other name to any.
  pub record Sound (start b : Board) : Type 0 where
    pub ids : start.next_id + jobs b < 2 ^ 32 → Numbered start b
    pub names :
        (name : String)
        → count (is_found name) b.pending
            + count (is_found name) b.finished
            + bit (name_set.contains start.explored name)
          ≡ bit (name_set.contains b.explored name)

  -- whoever is pending at the start is a job of its own, so a board starts empty
  pub start-Sound : (start : Board) → start.pending ≡ [] → start.finished ≡ [] → Sound start start
  start-Sound start none_pending none_finished = record {
    ids = λ _. record {
      counted = rw (none_pending, none_finished) (omega arith);
      unique = λ k. rw (none_pending, none_finished) (omega arith);
    };
    names = λ name. rw (none_pending, none_finished) (omega arith);
  }

  next_bit : (k n : ℕ) → bit (ltb k (n + 1)) ≡ bit (ltb k n) + bit (n == k)
  next_bit k n = ground arith

  moved :
      (test : Job → Bool) (before : List Job) (j : Job) (after finished pending : List Job)
      → pending ≡ before ++ j ∷ after
      → count test (before ++ after) + count test (finished ++ j ∷ [])
        ≡ count test pending + count test finished
  moved test before j after finished pending e = rw e (
      omega (
        arith,
        count-append test before after,
        count-append test before (j ∷ after),
        count-append test finished (j ∷ []),
      ))

  moved_jobs :
      (before : List Job) (j : Job) (after finished pending : List Job)
      → pending ≡ before ++ j ∷ after
      → length (before ++ after) + length (finished ++ j ∷ []) ≡ length pending + length finished
  moved_jobs before j after finished pending e = rw e (
      omega (
        arith,
        length-append before after,
        length-append before (j ∷ after),
        length-append finished (j ∷ []),
      ))

  -- one more job, under the next id
  added-Numbered :
      (start c b : Board)
      → start.next_id + jobs c < 2 ^ 32
      → jobs c ≡ jobs b + 1
      → c.next_id ≡ (b.next_id + 1) % 2 ^ 32
      → ((k : ℕ)
          → count (has_id k) c.pending + count (has_id k) c.finished
            ≡ count (has_id k) b.pending + count (has_id k) b.finished + bit (b.next_id == k))
      → Numbered start b
      → Numbered start c
  added-Numbered start c b fits more next adds numbered =
      let stepped : c.next_id ≡ b.next_id + 1 = omega (arith, fits, more, next, numbered.counted) in
      record {
        counted = omega (arith, stepped, more, numbered.counted);
        unique = λ k. rw stepped (omega (arith, numbered.unique k, next_bit k b.next_id, adds k));
      }

  pub step-Sound : {start b c : Board} → b ⟶ c → Sound start b → Sound start c
  step-Sound (open_output b x) sound = record {
    ids = λ fits.
        added-Numbered _ _ b fits (omega arith) refl (λ k. omega arith)
          (sound.ids (omega (arith, fits)));
    names = λ name. omega (arith, sound.names name);
  }
  step-Sound (discover b x unseen) sound = record {
    ids = λ fits.
        added-Numbered _ _ b fits (omega (arith, length-append b.pending (_ ∷ []))) refl
          (λ k. omega (arith, count-append (has_id k) b.pending (_ ∷ [])))
          (sound.ids (omega (arith, fits, length-append b.pending (_ ∷ []))));
    names = λ name. omega (
      arith,
      sound.names name,
      inserted_bit p (get_rtlil_name p x) name b.explored unseen,
      count-append (is_found name) b.pending (_ ∷ []),
    );
  }
  step-Sound (finish b before j after e) sound = record {
    ids = λ fits.
        let same = moved_jobs before j after b.finished b.pending e in
        let numbered = sound.ids (omega (arith, fits, same)) in
        record {
          counted = omega (arith, same, numbered.counted);
          unique = λ k.
              omega
                (arith, numbered.unique k, moved (has_id k) before j after b.finished b.pending e);
        };
    names = λ name.
        omega
          (arith, sound.names name, moved (is_found name) before j after b.finished b.pending e);
  }

  pub steps-Sound : {start b c : Board} → b ⟶* c → Sound start b → Sound start c
  steps-Sound here sound = sound
  steps-Sound (onward step more) sound = steps-Sound more (step-Sound step sound)
