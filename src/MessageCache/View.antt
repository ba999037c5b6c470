-- ===== src/MessageCache/View.antt =====
-- What a message cache promises: messages that wait, in order, and by uuid those that were sent. The
-- order of the sent ones, the pointers and the send marks are forgotten.
use mathlib.Core.List.{Mem, Nodup}
use lsd.Common.{
  ℕ, suc, true, false, All, String, ◌≡◌, none, some, Option, List, [], ◌∷◌, ◌++◌, if◌then◌else◌,
}
use lsd.OrderedMap.{same}
use lsd.OrderedMap.Keys.{text_key}
use lsd.TimeValue.{TimeValue}
use lsd.Message.{CachedMessage, MessagePtr}
use lsd.MessageCache.Ledger.{letter, uuid_of, uuids}
use lsd.Structs.{Double}
use lsd.MessageCache.{Expired}
use lsd.MessageCache.Expiry.{has_expired}
use lsd.MessageCache.Runs.{
  Call, added, appends, expires, enqueues, dispatch, resend, resend_front, remove, recall,
}

pub record View (D : Type 0) : Type 0 where
  pub waiting : List (MessagePtr D)
  pub sent : String → Option (MessagePtr D)

module _ {D : Type 0} where
  pub record Unchanged (s s' : View D) : Type 0 where
    pub queue : s'.waiting ≡ s.waiting
    pub index : (v : String) → s'.sent v ≡ s.sent v

  -- The sent messages without the one of this uuid.
  abbrev pub Without : String → View D → View D → Type 0
  Without u s s' = (v : String) → s'.sent v ≡ (if same v u then none else s.sent v)

  -- The sent messages, each once, in whatever order.
  pub record Enumerates (s : View D) (ls : List (MessagePtr D)) : Type 0 where
    pub listed : All (λ l. s.sent (uuid_of l) ≡ some l) ls
    pub complete : (u : String) (l : MessagePtr D) → s.sent u ≡ some l → Mem l ls
    pub once : Nodup (uuids ls)

  -- A queue after messages have expired: of each the entry is tested at the clock's next reading.
  pub data Sheds (d : Double D) (clock : ℕ → TimeValue)
      : ℕ → List (MessagePtr D) → List (MessagePtr D) → Type 0 where
    end : (i : ℕ) → Sheds d clock i [] []
    lives :
        (i : ℕ) (l : MessagePtr D) (ls ls' : List (MessagePtr D))
        → has_expired d (clock i) l ≡ false
        → Sheds d clock (suc i) ls ls'
        → Sheds d clock i (l ∷ ls) (l ∷ ls')
    dies :
        (i : ℕ) (l : MessagePtr D) (ls ls' : List (MessagePtr D))
        → has_expired d (clock i) l ≡ true
        → Sheds d clock (suc i) ls ls'
        → Sheds d clock i (l ∷ ls) ls'

  -- What becomes of the sent message of a uuid, if there is one, which is tested at some reading.
  pub data Fate (d : Double D) (clock : ℕ → TimeValue) (o o' : Option (MessagePtr D)) : Type 0 where
    missing : o ≡ none → o' ≡ none → Fate d clock o o'
    kept :
        (i : ℕ) (l : MessagePtr D)
        → o ≡ some l
        → has_expired d (clock i) l ≡ false
        → o' ≡ some l
        → Fate d clock o o'
    gone :
        (i : ℕ) (l : MessagePtr D)
        → o ≡ some l
        → has_expired d (clock i) l ≡ true
        → o' ≡ none
        → Fate d clock o o'

  -- What each call may do.
  pub data Transition (d : Double D) : Call D → View D → View D → Type 0 where
    accept :
        (m : CachedMessage D) (s s' : View D)
        → s'.waiting ≡ s.waiting ++ letter (some m) ∷ []
        → ((v : String) → s'.sent v ≡ s.sent v)
        → Transition d (enqueues m) s s'
    accept_all :
        (queue : Option (List (CachedMessage D))) (s s' : View D)
        → s'.waiting ≡ s.waiting ++ added (appends queue)
        → ((v : String) → s'.sent v ≡ s.sent v)
        → Transition d (appends queue) s s'
    expire :
        (clock1 clock2 clock3 : ℕ → TimeValue) (reported : List Expired) (s s' : View D)
        → Sheds d clock3 0 s.waiting s'.waiting
        → ((v : String) → Fate d clock1 (s.sent v) (s'.sent v))
        → Transition d (expires clock1 clock2 clock3 reported) s s'
    none_to_send :
        (now : TimeValue) (s s' : View D)
        → s.waiting ≡ []
        → Unchanged s s'
        → Transition d (dispatch now) s s'
    send :
        (now : TimeValue) (s s' : View D) (l : MessagePtr D)
        → s.waiting ≡ l ∷ s'.waiting
        → s.sent (uuid_of l) ≡ none
        → ((v : String) → s'.sent v ≡ (if same v (uuid_of l) then some l else s.sent v))
        → Transition d (dispatch now) s s'
    not_sent :
        (now : TimeValue) (u : String) (s s' : View D)
        → s.sent u ≡ none
        → Unchanged s s'
        → Transition d (resend now u) s s'
    send_later :
        (now : TimeValue) (u : String) (s s' : View D) (l : MessagePtr D)
        → s.sent u ≡ some l
        → s'.waiting ≡ s.waiting ++ l ∷ []
        → Without u s s'
        → Transition d (resend now u) s s'
    not_sent_front :
        (now : TimeValue) (u : String) (s s' : View D)
        → s.sent u ≡ none
        → Unchanged s s'
        → Transition d (resend_front now u) s s'
    send_next :
        (now : TimeValue) (u : String) (s s' : View D) (l : MessagePtr D)
        → s.sent u ≡ some l
        → s'.waiting ≡ l ∷ s.waiting
        → Without u s s'
        → Transition d (resend_front now u) s s'
    forget :
        (u : String) (s s' : View D)
        → s'.waiting ≡ s.waiting
        → Without u s s'
        → Transition d (remove u) s s'
    take_all :
        (s s' : View D) (ls : List (MessagePtr D))
        → Enumerates s ls
        → s'.waiting ≡ s.waiting ++ ls
        → ((v : String) → s'.sent v ≡ none)
        → Transition d recall s s'

  -- Calls one after the other.
  pub data Transitions (d : Double D) : List (Call D) → View D → View D → Type 0 where
    done : (s : View D) → Transitions d [] s s
    next :
        (call : Call D) (calls : List (Call D)) (s s' s'' : View D)
        → Transition d call s s'
        → Transitions d calls s' s''
        → Transitions d (call ∷ calls) s s''
