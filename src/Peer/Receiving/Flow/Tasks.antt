-- ===== src/Peer/Receiving/Flow/Tasks.antt =====
-- The steps of the two receiving tasks keep the flow of the bytes.
use quiczilla.Prelude.{
  ℕ, ◌≡◌, refl, sym, ap, ◌∙◌, Bool, true, false, not, List, [], ◌∷◌, ◌++◌, arith, length,
  length-append, length-take, take, drop, take-append-drop, if◌then◌else◌, if_holds, ltb, ◌==◌,
}
use mathlib.Core.List.{append_assoc}
use quiczilla.Prelude.Bytes.{Bytes}
use quiczilla.Peer.Signals.{Signals, channel_capacity, concat}
use quiczilla.Peer.Receiving.{
  Net, at_loop, at_pause, at_changed, at_read, at_send, ended, DiskWriter, at_recv, finished,
  writer_failed, Receipt, is_over, has_ended, read_len, on_loop, on_pause, on_read, on_read_error,
  on_push, on_store, on_store_error, on_flush_error,
}
use quiczilla.Peer.Receiving.Flow.{
  holds, is_failed, to_come, Fits, IsFlow, over_failed, to_come-push, update-stored, concat-push,
}

module _ (sha256_hex : Bytes → Bytes) (delivered : Bytes) where
  abbrev Keeps : Receipt → Type 0
  Keeps r = IsFlow sha256_hex delivered r

  store_next :
      (stored x : Bytes) (channel : List Bytes) (net : Net) (incoming : Bytes)
      → stored ++ to_come (x ∷ channel) net incoming ≡ delivered
      → (stored ++ x) ++ to_come channel net incoming ≡ delivered
  store_next stored x channel net incoming e =
      append_assoc stored x _ ∙ ap (λ z. stored ++ z) (sym (append_assoc x (concat channel) _)) ∙ e

  -- The reader moves on with what it holds, before its end.
  net_moves :
      (net net' : Net) (s : Signals) (r : Receipt)
      → r.net ≡ net
      → holds net' ≡ holds net
      → has_ended net ≡ false
      → Fits net' r.total_received r.task.file_size r.task.resume_offset
      → Keeps r
      → Keeps (record r { net = net'; signals = s })
  net_moves net net' s r e same runs f h = record {
    order = λ g. rw same (rw e at (h.order g));
    begun = h.begun;
    drained = λ i k. absurd (ground (arith, rw e at (h.drained i k)));
    hashed = h.hashed;
    count = h.count;
    fits = f;
    room = h.room;
  }

  pub on_loop-IsFlow : (net : Net) (r : Receipt) → r.net ≡ net → Keeps r → Keeps (on_loop net r)
  unfolding on_loop
  on_loop-IsFlow at_loop r e h =
      net_moves at_loop _ r.signals r e (ground arith) refl (ground (arith, rw e at h.fits)) h
  on_loop-IsFlow at_pause r e h = h
  on_loop-IsFlow at_changed r e h = h
  on_loop-IsFlow at_read r e h = h
  on_loop-IsFlow (at_send c) r e h = h
  on_loop-IsFlow (ended b) r e h = h

  pub on_pause-IsFlow : (net : Net) (r : Receipt) → r.net ≡ net → Keeps r → Keeps (on_pause net r)
  unfolding on_pause
  on_pause-IsFlow at_pause r e h =
      net_moves at_pause _ r.signals r e (ground arith) refl (ground (arith, rw e at h.fits)) h
  on_pause-IsFlow at_changed r e h =
      if_holds Keeps r.signals.unseen _ _
        (λ u. net_moves at_changed _ _ r e refl refl (rw e at h.fits) h)
        (λ u.
          if_holds Keeps r.signals.is_closed _ _
            (λ c. net_moves at_changed _ r.signals r e refl refl (rw e at h.fits) h) (λ c. h))
  on_pause-IsFlow at_loop r e h = h
  on_pause-IsFlow at_read r e h = h
  on_pause-IsFlow (at_send c) r e h = h
  on_pause-IsFlow (ended b) r e h = h

  pub on_read-IsFlow :
      (net : Net) (size : ℕ) (r : Receipt) → r.net ≡ net → Keeps r → Keeps (on_read net size r)
  unfolding on_read
  on_read-IsFlow at_read size r e h =
      if_holds Keeps (not (length r.incoming == 0)) _ _
        (λ some_there. record {
          order = λ g. rw take-append-drop (rw e at (h.order g));
          begun = h.begun;
          drained = λ i k. absurd (ground (arith, rw e at (h.drained i k)));
          hashed = h.hashed;
          count = h.count;
          fits = ground (arith, rw e at h.fits, length-take (read_len r size) r.incoming);
          room = h.room;
        })
        (λ nothing.
          if_holds Keeps r.is_finished _ _
            (λ f.
              net_moves at_read (ended false) r.signals r e refl refl
                (ground (arith, rw e at h.fits)) h)
            (λ f. h))
  on_read-IsFlow at_loop size r e h = h
  on_read-IsFlow at_pause size r e h = h
  on_read-IsFlow at_changed size r e h = h
  on_read-IsFlow (at_send c) size r e h = h
  on_read-IsFlow (ended b) size r e h = h

  pub on_read_error-IsFlow :
      (net : Net) (r : Receipt) → r.net ≡ net → Keeps r → Keeps (on_read_error net r)
  unfolding on_read_error
  on_read_error-IsFlow at_read r e h =
      net_moves at_read (ended false) r.signals r e refl refl (ground (arith, rw e at h.fits)) h
  on_read_error-IsFlow at_loop r e h = h
  on_read_error-IsFlow at_pause r e h = h
  on_read_error-IsFlow at_changed r e h = h
  on_read_error-IsFlow (at_send c) r e h = h
  on_read_error-IsFlow (ended b) r e h = h

  pub on_push-IsFlow :
      (net : Net) (reports : Bool) (r : Receipt)
      → r.net ≡ net
      → Keeps r
      → Keeps (on_push net reports r)
  unfolding on_push
  on_push-IsFlow (at_send c) reports r e h =
      if_holds Keeps (is_over r.disk_writer) _ _
        (λ over.
          let bad : is_failed r.disk_writer ≡ true =
            over_failed r.disk_writer over (λ i k. ground (arith, rw e at (h.drained i k))) in
          record {
            order = λ g. absurd (ground arith);
            begun = h.begun;
            drained = λ i k. absurd (ground (arith, rw e at (h.drained i k)));
            hashed = h.hashed;
            count = h.count;
            fits = ground (arith, rw e at h.fits);
            room = h.room;
          })
        (λ opened.
          if_holds Keeps (ltb (length r.channel) channel_capacity) _ _
            (λ small. record {
              order = λ g.
                  ap (λ x. r.stored ++ x)
                    (to_come-push r.channel c
                      (if r.signals.is_cancelled then ended false else at_loop) r.incoming
                      (ground arith))
                  ∙ rw e at (h.order g);
              begun = h.begun;
              drained = λ i k. absurd (ground (arith, rw e at (h.drained i k)));
              hashed = h.hashed;
              count = λ g. omega (arith, h.count g, concat-push r.channel c);
              fits = ground (arith, rw e at h.fits);
              room = ground (arith, length-append r.channel (c ∷ []));
            })
            (λ full. h))
  on_push-IsFlow at_loop reports r e h = h
  on_push-IsFlow at_pause reports r e h = h
  on_push-IsFlow at_changed reports r e h = h
  on_push-IsFlow at_read reports r e h = h
  on_push-IsFlow (ended b) reports r e h = h

  pub on_store-IsFlow :
      (w : DiskWriter) (channel : List Bytes) (r : Receipt)
      → r.disk_writer ≡ w
      → r.channel ≡ channel
      → Keeps r
      → Keeps (on_store sha256_hex w channel r)
  unfolding on_store
  on_store-IsFlow at_recv [] r e c h =
      if_holds Keeps (has_ended r.net) _ _
        (λ n. record {
          order = λ g. h.order (ap is_failed e);
          begun = h.begun;
          drained = λ i k. (c, n, ground (arith, k));
          hashed = λ g. h.hashed (ap is_failed e);
          count = λ g. h.count (ap is_failed e);
          fits = h.fits;
          room = h.room;
        })
        (λ n. h)
  on_store-IsFlow at_recv (x ∷ channel) r e c h =
      if_holds Keeps r.signals.is_cancelled _ _
        (λ n. record {
          order = λ g. absurd (ground arith);
          begun = h.begun;
          drained = λ i k. absurd (ground arith);
          hashed = λ g. absurd (ground arith);
          count = λ g. absurd (ground arith);
          fits = h.fits;
          room = h.room;
        })
        (λ n. record {
          order = λ g.
              store_next r.stored x channel r.net r.incoming (rw c at (h.order (ap is_failed e)));
          begun = (
            _,
            store_next r.stored x channel r.net r.incoming (rw c at (h.order (ap is_failed e))),
          );
          drained = λ i k. absurd (ground arith);
          hashed = λ g. update-stored r.hasher r.stored x (h.hashed (ap is_failed e));
          count = λ g. omega (
            arith,
            h.count (ap is_failed e),
            ap (λ z. length (concat z)) c,
            length-append r.stored x,
            length-append x (concat channel),
          );
          fits = h.fits;
          room = ground (arith, rw c at h.room);
        })
  on_store-IsFlow (finished i) channel r e c h = h
  on_store-IsFlow writer_failed channel r e c h = h

  pub on_store_error-IsFlow :
      (already : ℕ) (w : DiskWriter) (channel : List Bytes) (r : Receipt)
      → r.disk_writer ≡ w
      → r.channel ≡ channel
      → Keeps r
      → Keeps (on_store_error sha256_hex already w channel r)
  unfolding on_store_error
  on_store_error-IsFlow already at_recv (x ∷ channel) r e c h = record {
    order = λ g. absurd (ground arith);
    begun = (
      drop already x ++ to_come channel r.net r.incoming,
      append_assoc r.stored (take already x) _
          ∙ ap (λ z. r.stored ++ z)
              (sym (append_assoc (take already x) (drop already x) _)
                ∙ ap (λ z. z ++ to_come channel r.net r.incoming) (take-append-drop already x))
          ∙ sym (append_assoc r.stored x _)
          ∙ store_next r.stored x channel r.net r.incoming (rw c at (h.order (ap is_failed e))),
    );
    drained = λ i k. absurd (ground arith);
    hashed = λ g. absurd (ground arith);
    count = λ g. absurd (ground arith);
    fits = h.fits;
    room = h.room;
  }
  on_store_error-IsFlow already at_recv [] r e c h = h
  on_store_error-IsFlow already (finished i) channel r e c h = h
  on_store_error-IsFlow already writer_failed channel r e c h = h

  pub on_flush_error-IsFlow :
      (w : DiskWriter) (channel : List Bytes) (r : Receipt)
      → r.disk_writer ≡ w
      → Keeps r
      → Keeps (on_flush_error sha256_hex w channel r)
  unfolding on_flush_error
  on_flush_error-IsFlow at_recv [] r e h =
      if_holds Keeps (has_ended r.net) _ _
        (λ n. record {
          order = λ g. absurd (ground arith);
          begun = h.begun;
          drained = λ i k. absurd (ground arith);
          hashed = λ g. absurd (ground arith);
          count = λ g. absurd (ground arith);
          fits = h.fits;
          room = h.room;
        })
        (λ n. h)
  on_flush_error-IsFlow at_recv (x ∷ channel) r e h = h
  on_flush_error-IsFlow (finished i) channel r e h = h
  on_flush_error-IsFlow writer_failed channel r e h = h
