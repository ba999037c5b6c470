-- ===== src/Handle/Responses.antt =====
-- What a reply passes on is added to what was passed on before.
use mathlib.Core.List.{append_assoc, append-nil}
use lsd.Common.{
  ℕ, String, ◌≡◌, refl, sym, ap, ◌∙◌, arith, Bool, true, false, Option, none, some, List, [], ◌∷◌,
  ◌++◌, ok, err, Result, if◌then◌else◌, str_eq,
}
use lsd.Common.Int.{ℤ, pos, eq_ℤ}
use lsd.Structs.{message_queue_is_full}
use lsd.TimeValue.{TimeValue}
use lsd.DataContainer.{Sha1}
use lsd.Message.{CachedMessage}
use lsd.CachedResponse.{CachedResponse}
use lsd.MessageCache.{get_sent_message}
use lsd.Handle.State.{Handle, enqueue_response, update_statistics}
use lsd.Handle.Receiving.{
  Reply, bad_envelope, bad_json, reply, ReplyEnvelope, Chunk, no_chunk, bad_chunk, chunk, fetched,
  Next, pass_on, resend_message, error_reply, normal_reply, chunk_reply, choke_reply,
  dispatch_reply, handle_reply,
}

module _ {D : Type 0} where
  -- The responses that were passed on stay, and more may follow.
  pub record Grown (h h' : Handle D) : Type 0 where
    pub callback : h'.has_callback ≡ h.has_callback
    pub more : List CachedResponse
    pub grows : h'.responses ≡ h.responses ++ more

  pub same-Grown :
      (h h' : Handle D) → h'.has_callback ≡ h.has_callback → h'.responses ≡ h.responses → Grown h h'
  same-Grown h h' callback same = record {
    callback = callback;
    more = [];
    grows = same ∙ sym (append-nil h.responses);
  }

  pub Grown-trans : (h h1 h2 : Handle D) → Grown h h1 → Grown h1 h2 → Grown h h2
  Grown-trans h h1 h2 g g' = record {
    callback = g'.callback ∙ g.callback;
    more = g.more ++ g'.more;
    grows = g'.grows ∙ ap (λ l. l ++ g'.more) g.grows ∙ append_assoc h.responses g.more g'.more;
  }

  either-Grown :
      (h : Handle D) (b : Bool) (x y : Next × Handle D)
      → Grown h x.1
      → Grown h y.1
      → Grown h (if b then x else y).1
  either-Grown h true x y gx gy = gx
  either-Grown h false x y gx gy = gy

  chosen-Grown :
      (h : Handle D) (b : Bool) (x y : Handle D)
      → Grown h x
      → Grown h y
      → Grown h (if b then x else y)
  chosen-Grown h true x y gx gy = gx
  chosen-Grown h false x y gx gy = gy

  enqueue-Grown : (r : CachedResponse) (h : Handle D) → Grown h (enqueue_response r h)
  unfolding enqueue_response
  enqueue-Grown r h =
      chosen-Grown h h.has_callback _ h (record { callback = refl; more = r ∷ []; grows = refl })
        (same-Grown h h refl refl)

  pass_on-Grown :
      (code : ℤ) (r : Result CachedResponse) (h : Handle D) → Grown h (pass_on code r h).1
  unfolding pass_on
  pass_on-Grown code (err e) h = same-Grown h h refl refl
  pass_on-Grown code (ok r) h = enqueue-Grown _ h

module _ {D : Type 0} (sha1 : Sha1) (object_size : ℕ) where
  resend-Grown :
      (now : TimeValue) (uuid : String) (h : Handle D)
      → Grown h (resend_message sha1 object_size now uuid h).1
  unfolding resend_message update_statistics
  resend-Grown now uuid h = same-Grown h _ (ground arith) (ground arith)

  error-Grown :
      (env : ReplyEnvelope) (m : Option (CachedMessage D)) (h : Handle D)
      → Grown h (error_reply sha1 object_size env m h)
  unfolding error_reply update_statistics
  error-Grown env none h = same-Grown h h refl refl
  error-Grown env (some m) h =
      let g = enqueue-Grown _ _ in record { callback = g.callback; more = g.more; grows = g.grows }

  normal-Grown :
      (env : ReplyEnvelope) (m : Option (CachedMessage D)) (block : Option (List ℕ)) (size : ℕ)
      (code : ℤ) (h : Handle D)
      → Grown h (normal_reply sha1 object_size env m block size code h).1
  unfolding normal_reply update_statistics
  normal-Grown env none block size code h = same-Grown h h refl refl
  normal-Grown env (some m) block size code h =
      let g = pass_on-Grown code _ _ in
      record { callback = g.callback; more = g.more; grows = g.grows }

  chunk-Grown :
      (env : ReplyEnvelope) (m : Option (CachedMessage D)) (c : Chunk) (h : Handle D)
      → Grown h (chunk_reply sha1 object_size env m c h).1
  unfolding chunk_reply
  chunk-Grown env m no_chunk h = same-Grown h h refl refl
  chunk-Grown env m bad_chunk h = same-Grown h h refl refl
  chunk-Grown env m (chunk bytes) h = normal-Grown env m _ _ _ h

  choke-Grown :
      (env : ReplyEnvelope) (m : Option (CachedMessage D)) (h : Handle D)
      → Grown h (choke_reply sha1 object_size env m h).1
  unfolding choke_reply
  choke-Grown env m h =
      let g = normal-Grown env m none 0 _ _ in
      record { callback = g.callback; more = g.more; grows = g.grows }

  dispatched-Grown :
      (now : TimeValue) (env : ReplyEnvelope) (c : Chunk) (m : Option (CachedMessage D))
      (h : Handle D)
      → Grown h (dispatch_reply sha1 object_size now env c m h).1
  unfolding dispatch_reply
  dispatched-Grown now env c none h =
      either-Grown h (eq_ℤ env.code (pos 0)) _ _
        (either-Grown h env.completed _ _ (choke-Grown env none h) (chunk-Grown env none c h))
        (error-Grown env none h)
  dispatched-Grown now env c (some m) h =
      either-Grown h (eq_ℤ env.code message_queue_is_full) _ _ (resend-Grown now env.uuid h) (
        either-Grown h (eq_ℤ env.code (pos 0)) _ _
          (either-Grown h env.completed _ _ (choke-Grown env (some m) h)
            (chunk-Grown env (some m) c h))
          (error-Grown env (some m) h))

  pub reply-Grown :
      (now : TimeValue) (r : Reply) (h : Handle D)
      → Grown h (handle_reply sha1 object_size now r h).1
  unfolding handle_reply
  reply-Grown now bad_envelope h = same-Grown h h refl refl
  reply-Grown now bad_json h = same-Grown h h refl refl
  reply-Grown now (reply env c) h =
      either-Grown h (str_eq env.uuid "") _ _ (same-Grown h h refl refl)
        (dispatched-Grown now env c (fetched (get_sent_message env.uuid h.cache)) h)
