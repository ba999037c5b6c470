-- ===== src/Client/Sizes.antt =====
-- How much the services of a client hold, and the bound that sending keeps.
use lsd.Common.{
  ℕ, ltb, Bool-cases, ◌+◌, ◌%◌, ◌≤◌, ◌<◌, String, ◌≡◌, refl, arith, none, some, List, [], ◌∷◌, ok,
  Option, Option-cases, Result-cases, inl, inr,
}
use lsd.OrderedMap.{Map, find, assign}
use lsd.OrderedMap.Keys.{text_key}
use lsd.OrderedMap.Order.{IsSorted, assign-IsSorted, find-below}
use lsd.Structs.{MessagePath, MessagePolicy, path_size, size_mod}
use lsd.DataContainer.{Sha1, init_with_data, empty_container}
use lsd.Message.{CachedMessage, make_message, uuid_size}
use lsd.Service.{Service}
use lsd.Service
use lsd.Client.{
  Client, sum_sizes, update_messages_cache_size, with_service, message_size, deliver, send_message,
}

size-init_with_data :
    (sha1 : Sha1) (block : Option (List ℕ)) (size : ℕ)
    → (init_with_data sha1 block size).size ≤ size
unfolding init_with_data empty_container
size-init_with_data sha1 none size = ground arith
size-init_with_data sha1 (some block) size = ground arith

module _ {D : Type 0} where
  -- The sum of the sizes, none of it lost to wrap-around.
  unfoldable pub total_size : Map String (Service D) → ℕ
  total_size [] = 0
  total_size ((name, s) ∷ rest) = s.cache_size + total_size rest

  sum_sizes-total :
      (m : Map String (Service D)) (start : ℕ)
      → start + total_size m < size_mod
      → sum_sizes m start ≡ start + total_size m
  unfolding sum_sizes total_size
  sum_sizes-total [] start h = ground arith
  sum_sizes-total ((name, s) ∷ rest) start h =
      ground (arith, sum_sizes-total rest (start + s.cache_size))

  -- Another service of the same name changes the sum by the difference of the two.
  total_size-assign :
      (name : String) (s old : Service D) (m : Map String (Service D))
      → IsSorted m
      → find name m ≡ some old
      → total_size (assign name s m) + old.cache_size ≡ total_size m + s.cache_size
  unfolding total_size find assign
  total_size-assign name s old [] sorted found = ground arith
  total_size-assign name s old ((j, w) ∷ m) sorted found =
      ground (arith, total_size-assign name s old m sorted.1, find-below name j m)

  -- What a service holds is part of what all hold.
  total_size-find :
      (name : String) (old : Service D) (m : Map String (Service D))
      → find name m ≡ some old
      → old.cache_size ≤ total_size m
  unfolding total_size find
  total_size-find name old [] found = ground arith
  total_size-find name old ((j, w) ∷ m) found = ground (arith, total_size-find name old m)

  -- The client knows what its services hold, and it is no more than the configured bound.
  pub record IsBounded (c : Client D) : Type 0 where
    pub sorted : IsSorted c.services
    pub counted : c.messages_cache_size ≡ total_size c.services
    pub within : c.messages_cache_size ≤ c.max_cache_size

  -- A service that grows by `k` keeps the bound where there was room for `k`.
  grown :
      (name : String) (s s' : Service D) (k : ℕ) (c : Client D)
      → IsBounded c
      → find name c.services ≡ some s
      → s'.cache_size ≡ (s.cache_size + k) % size_mod
      → c.messages_cache_size + k < size_mod
      → c.messages_cache_size + k ≤ c.max_cache_size
      → IsBounded (update_messages_cache_size (with_service name s' c))
  unfolding update_messages_cache_size with_service
  grown name s s' k c b found grows small room = record {
    sorted = assign-IsSorted name s' c.services b.sorted;
    counted = counted;
    within = ground (arith, counted, new_total, b.counted);
  }
    where
      new_total : total_size (assign name s' c.services) ≡ total_size c.services + k
      new_total =
          let part = total_size-find name s c.services found in
          let moved = total_size-assign name s' s c.services b.sorted found in
          let known = b.counted in ground arith

      counted : sum_sizes (assign name s' c.services) 0 ≡ total_size (assign name s' c.services)
      counted =
          let known = b.counted in
          let summed = sum_sizes-total (assign name s' c.services) 0 (ground (arith, new_total)) in
          ground arith

  cache_size-send_message :
      (m : CachedMessage D) (s : Service D)
      → (lsd.Service.send_message (some m) s).1.cache_size
        ≡ (s.cache_size + m.container_size) % size_mod
  unfolding lsd.Service.send_message lsd.Service.update_statistics lsd.Service.with_handle
  cache_size-send_message m s = elim (Option-cases (find m.path.handle_name s.handles)) [
    | inl e ↦ rw e refl
    | inr (h, e) ↦ rw e refl
  ]

  -- The client counts what a message will take at least as large as the message itself does.
  container_size-make_message :
      (sha1 : Sha1) (object_size : ℕ) (uuid : String) (path : MessagePath)
      (policy : MessagePolicy D) (block : Option (List ℕ)) (size : ℕ) (m : CachedMessage D)
      → size + object_size + uuid_size + path_size path < size_mod
      → make_message sha1 object_size uuid path policy block size ≡ ok m
      → m.container_size ≤ message_size object_size size path
  unfolding make_message message_size
  container_size-make_message sha1 object_size uuid path policy block size m small made =
      let kept = size-init_with_data sha1 block size in ground arith

  abbrev sent : CachedMessage D → Service D → Client D → Service D
  sent m s c = (lsd.Service.send_message (some m) (record s { collector = c.collector })).1

  deliver-IsBounded :
      (sha1 : Sha1) (object_size : ℕ) (uuid : String) (block : Option (List ℕ)) (size : ℕ)
      (path : MessagePath) (policy : MessagePolicy D) (c : Client D)
      → IsBounded c
      → size + object_size + uuid_size + path_size path < size_mod
      → c.messages_cache_size + message_size object_size size path < size_mod
      → c.messages_cache_size + message_size object_size size path ≤ c.max_cache_size
      → IsBounded (deliver sha1 object_size uuid block size path policy c).1
  unfolding deliver
  deliver-IsBounded sha1 object_size uuid block size path policy c b fits small room =
      elim (Option-cases (find path.service_name c.services)) [
        | inl e ↦ rw (e, deliver) b
        | inr (s, e) ↦
            elim (Result-cases (make_message sha1 object_size uuid path policy block size)) [
              | inl (f, failed) ↦ rw (e, deliver) (rw failed b)
              | inr (m, made) ↦
                  rw (e, deliver)
                    (rw made (
                      let fits_in =
                        container_size-make_message sha1 object_size uuid path policy block size m
                          fits made in
                      grown path.service_name s (sent m s c) m.container_size c b e
                        (cache_size-send_message m (record s { collector = c.collector }))
                        (ground arith) (ground arith)))
            ]
      ]

  -- If the services are sorted, the client's count is the sum of their sizes and at most the configured
  -- bound, and the sizes do not leave 64 bits, then all this holds after send_message, whether the
  -- message is taken or refused.
  pub send_message-IsBounded :
      (sha1 : Sha1) (object_size : ℕ) (uuid : String) (block : Option (List ℕ)) (size : ℕ)
      (path : MessagePath) (policy : MessagePolicy D) (c : Client D)
      → IsBounded c
      → c.messages_cache_size + (size + object_size + uuid_size + path_size path) < size_mod
      → IsBounded (send_message sha1 object_size uuid block size path policy c).1
  unfolding send_message
  send_message-IsBounded sha1 object_size uuid block size path policy c b small =
      elim (Bool-cases (ltb c.max_cache_size (resulting_size % size_mod))) [
        | inl over ↦ rw (over, send_message) b
        | inr room ↦ elim (Option-cases (find path.service_name c.configured)) [
          | inl e ↦ rw (room, send_message) (rw e b)
          | inr (info, e) ↦
              rw (room, send_message)
                (rw e (
                  deliver-IsBounded sha1 object_size uuid block size path policy c b (ground arith)
                    (ground (arith, not_wrapped)) (ground (arith, not_wrapped))))
        ]
      ]
    where
      resulting_size : ℕ
      resulting_size = c.messages_cache_size + message_size object_size size path

      not_wrapped :
          message_size object_size size path ≡ size + object_size + uuid_size + path_size path
      not_wrapped = unfold message_size in ground arith
