-- ===== src/Handle/Batches.antt =====
-- A whole batch of replies: every message that leaves the cache was answered.
use mathlib.Core.List.{Mem, mem-append_left, mem-append_right, mem-cons_self, mem-cons_of_mem}
use lsd.Common.{
  ℕ, String, map, ◌≡◌, refl, sym, subst, ap, ◌∙◌, true, some, List, [], ◌∷◌, ◌++◌, if◌then◌else◌,
  All, All-map, All-append,
}
use lsd.Common.Int.{ℤ}
use lsd.TimeValue.{TimeValue}
use lsd.DataContainer.{Sha1}
use lsd.Message.{CachedMessage, MessagePtr}
use lsd.CachedResponse.{CachedResponse}
use lsd.MessageCache.Ledger.{letter, letters}
use lsd.MessageCache.Index.{IsIndexed}
use lsd.MessageCache.Conservation.{Moves, stays}
use lsd.MessageCache.Runs.{ledgers_join}
use lsd.Handle.State.{Handle}
use lsd.Handle.Receiving.{Reply, Next, go_on, stop, handle_reply, dispatch_responces}
use lsd.Handle.Answers.{final_of, EffectOn, unchanged, requeued, answered, handle_reply-Effect}
use lsd.Handle.Responses.{Grown, same-Grown, Grown-trans, reply-Grown}

-- A message and the response that it got.
abbrev pub Answer : Type 0 → Type 0
Answer D = CachedMessage D × CachedResponse

module _ {D : Type 0} where
  abbrev pub letters_of : List (Answer D) → List (MessagePtr D)
  letters_of [] = []
  letters_of ((m, r) ∷ answers) = letter (some m) ∷ letters_of answers

  -- The response is about the message, was passed on, and one of the replies has its uuid and code,
  -- where a reply without an error counts as a choke.
  pub record IsAnswered (rs : List Reply) (h' : Handle D) (a : Answer D) : Type 0 where
    pub uuid : a.1.uuid ≡ a.0.uuid
    pub path : a.1.path ≡ a.0.path
    pub replied : Mem (a.1.uuid, a.1.error_code) (map final_of rs)
    pub passed : Mem a.1 h'.responses

  -- From `h` to `h'`: the cache has lost the messages of the answers and no others, and each of these was
  -- answered, if there is a callback.
  pub record Batch (rs : List Reply) (h h' : Handle D) : Type 0 where
    pub answers : List (Answer D)
    pub moves : Moves h.cache h'.cache [] (letters_of answers)
    pub answered : h.has_callback ≡ true → All (IsAnswered rs h') answers

  no_change :
      (rs : List Reply) (h h' : Handle D) → IsIndexed h.cache → h'.cache ≡ h.cache → Batch rs h h'
  no_change rs h h' ix same = record {
    answers = [];
    moves = subst (λ c. Moves h.cache c [] []) (sym same) (stays h.cache ix);
    answered = λ callback. tt;
  }

  effect-Batch :
      (first : Reply) (rs : List Reply) (h h' : Handle D)
      → IsIndexed h.cache
      → EffectOn (final_of first) h h'
      → Batch (first ∷ rs) h h'
  effect-Batch first rs h h' ix (unchanged same) = no_change (first ∷ rs) h h' ix same
  effect-Batch first rs h h' ix (requeued moves) = record {
    answers = [];
    moves = moves;
    answered = λ callback. tt;
  }
  effect-Batch first rs h h' ix (answered m r moves passed uuid path code) = record {
    answers = (m, r) ∷ [];
    moves = moves;
    answered = λ callback. (
      record {
        uuid = uuid;
        path = path;
        replied =
            subst (λ (x : String × ℤ). Mem x (map final_of (first ∷ rs))) (sym code) mem-cons_self;
        passed =
            subst (λ rs. Mem r rs) (sym (passed ∙ with_callback callback))
              (mem-append_right h.responses mem-cons_self);
      },
      tt,
    );
  }
    where
      with_callback :
          h.has_callback ≡ true
          → (if h.has_callback then h.responses ++ r ∷ [] else h.responses) ≡ h.responses ++ r ∷ []
      with_callback callback = rw callback refl

  letters_of-append :
      (xs ys : List (Answer D)) → letters_of (xs ++ ys) ≡ letters_of xs ++ letters_of ys
  letters_of-append [] ys = refl
  letters_of-append ((m, r) ∷ xs) ys = ap (λ l. letter (some m) ∷ l) (letters_of-append xs ys)

  Batch-trans :
      (first : Reply) (rs : List Reply) (h h1 h2 : Handle D)
      → Batch (first ∷ rs) h h1
      → Grown h h1
      → Batch rs h1 h2
      → Grown h1 h2
      → Batch (first ∷ rs) h h2
  Batch-trans first rs h h1 h2 b g b' g' = record {
    answers = b.answers ++ b'.answers;
    moves = record {
      indexed = b'.moves.indexed;
      ledger = rw (letters_of-append b.answers b'.answers) (
          ledgers_join (letters h.cache) [] (letters h1.cache) (letters_of b.answers) []
            (letters h2.cache) (letters_of b'.answers) b.moves.ledger b'.moves.ledger);
    };
    answered = λ callback.
        All-append (IsAnswered (first ∷ rs) h2) b.answers b'.answers
          (All-map
            (λ a is. record {
              uuid = is.uuid;
              path = is.path;
              replied = is.replied;
              passed = subst (λ rs. Mem a.1 rs) (sym g'.grows) (mem-append_left g'.more is.passed);
            })
            b.answers (b.answered callback))
          (All-map
            (λ a is. record {
              uuid = is.uuid;
              path = is.path;
              replied = mem-cons_of_mem (final_of first) is.replied;
              passed = is.passed;
            })
            b'.answers (b'.answered (g.callback ∙ callback)));
  }

module _ {D : Type 0} (sha1 : Sha1) (object_size : ℕ) where
  -- A batch with what was passed on.
  abbrev Served : List Reply → Handle D → Handle D → Type 0
  Served rs h h' = Batch rs h h' × Grown h h'

  continued :
      (first : Reply) (rs : List Reply) (h : Handle D) (p : Next × Handle D)
      (rest : Handle D → Handle D)
      → Served (first ∷ rs) h p.1
      → ((h1 : Handle D) → IsIndexed h1.cache → Served rs h1 (rest h1))
      → Served (first ∷ rs) h (elim p.0 as (λ _. Handle D) [ go_on ↦ rest p.1 | stop ↦ p.1 ])
  continued first rs h (stop, h1) rest now later = now
  continued first rs h (go_on, h1) rest (b, g) later =
      let (b', g') = later h1 b.moves.indexed in
      (Batch-trans first rs h h1 (rest h1) b g b' g', Grown-trans h h1 (rest h1) g g')

  batch-Served :
      (now : TimeValue) (rs : List Reply) (h : Handle D)
      → IsIndexed h.cache
      → Served rs h (dispatch_responces sha1 object_size now rs h)
  unfolding dispatch_responces
  batch-Served now [] h ix = (no_change [] h h ix refl, same-Grown h h refl refl)
  batch-Served now (r ∷ rs) h ix =
      continued r rs h (handle_reply sha1 object_size now r h)
        (dispatch_responces sha1 object_size now rs)
        (
          effect-Batch r rs h _ ix (handle_reply-Effect sha1 object_size now r h ix),
          reply-Grown sha1 object_size now r h,
        )
        (λ h1 ix1. batch-Served now rs h1 ix1)

  -- If the cache is filed, then after dispatch_responces the cache holds, up to order and marks, what it
  -- held but for some messages; and, if the handle has a callback, for each of these a response was
  -- passed on that has the message's uuid and path, and one of the replies has the same uuid and the
  -- code of the response, or the code 0 if that is the code of a choke.
  pub dispatch_responces-Batch :
      (now : TimeValue) (rs : List Reply) (h : Handle D)
      → IsIndexed h.cache
      → Batch rs h (dispatch_responces sha1 object_size now rs h)
  dispatch_responces-Batch now rs h ix = (batch-Served now rs h ix).0
