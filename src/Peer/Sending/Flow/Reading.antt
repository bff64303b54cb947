-- ===== src/Peer/Sending/Flow/Reading.antt =====
-- The steps of the reading task keep the flow of the bytes.
use quiczilla.Prelude.{
  ℕ, ◌≡◌, refl, ap, ◌∙◌, true, [], ◌∷◌, ◌++◌, arith, length, length-append, take, drop,
  take-append-drop, if_holds, ltb, ◌==◌,
}
use quiczilla.Prelude.Bytes.{Bytes}
use quiczilla.Directory.Copy.{update}
use quiczilla.Peer.Signals.{channel_capacity, length-nil, digest}
use quiczilla.Peer.Sending.{
  Reader, at_read, at_send, finished, reader_failed, Transfer, is_over, gave_up, read_len, on_read,
  on_read_error, on_push,
}
use quiczilla.Peer.Sending.Flow.{reader_holds, Finished, IsFlow, update-OptionAll, to_come-push}

module _ (sha256_hex : Bytes → Bytes) (source : Bytes) (offset : ℕ) where
  abbrev pub Keeps : Transfer → Type 0
  Keeps t = IsFlow sha256_hex source offset t

  -- Without a chunk in its hands, the reader ends.
  reader_ends :
      (r' : Reader) (t : Transfer)
      → t.reader ≡ at_read
      → reader_holds r' ≡ []
      → is_over r' ≡ true
      → Finished sha256_hex r' t.hasher t.unread
      → Keeps t
      → Keeps (record t { reader = r' })
  reader_ends r' t e none_held is_end f h = record {
    order = λ g. rw none_held (rw e at (h.order g));
    begun = h.begun;
    drained = λ w. ((h.drained w).0, is_end);
    hashed = h.hashed;
    over = f;
    count = h.count;
    room = h.room;
  }

  reader_reads :
      (n : ℕ) (t : Transfer)
      → t.reader ≡ at_read
      → Keeps t
      → Keeps (record t {
        unread = drop n t.unread;
        hasher = update t.hasher (take n t.unread);
        reader = at_send (take n t.unread);
      })
  reader_reads n t e h = record {
    order = λ g. rw take-append-drop (rw e at (h.order g));
    begun = h.begun;
    drained = λ w. absurd (ground (arith, rw e at (h.drained w)));
    hashed = update-OptionAll t.hasher n t.unread source h.hashed;
    over = tt;
    count = h.count;
    room = h.room;
  }

  pub on_read-IsFlow :
      (r : Reader) (size : ℕ) (t : Transfer)
      → t.reader ≡ r
      → Keeps t
      → Keeps (on_read sha256_hex r size t)
  unfolding on_read
  on_read-IsFlow at_read size t e h =
      if_holds Keeps t.signals.is_cancelled _ _ (λ c. reader_ends reader_failed t e refl refl tt h)
        (λ c.
          if_holds Keeps (length t.unread == 0) _ _
            (λ z.
              reader_ends (finished (digest sha256_hex t.hasher)) t e refl refl
                (length-nil t.unread z, refl) h)
            (λ z. reader_reads (read_len size) t e h))
  on_read-IsFlow (at_send c) size t e h = h
  on_read-IsFlow (finished c) size t e h = h
  on_read-IsFlow reader_failed size t e h = h

  pub on_read_error-IsFlow :
      (r : Reader) (t : Transfer) → t.reader ≡ r → Keeps t → Keeps (on_read_error sha256_hex r t)
  unfolding on_read_error
  on_read_error-IsFlow at_read t e h = reader_ends reader_failed t e refl refl tt h
  on_read_error-IsFlow (at_send c) t e h = h
  on_read_error-IsFlow (finished c) t e h = h
  on_read_error-IsFlow reader_failed t e h = h

  pub on_push-IsFlow :
      (r : Reader) (t : Transfer) → t.reader ≡ r → Keeps t → Keeps (on_push sha256_hex r t)
  unfolding on_push
  on_push-IsFlow (at_send c) t e h =
      if_holds Keeps (gave_up t.writer) _ _
        (λ g. record {
          order = λ k. absurd (ground arith);
          begun = h.begun;
          drained = λ w. ((h.drained w).0, refl);
          hashed = h.hashed;
          over = tt;
          count = h.count;
          room = h.room;
        })
        (λ g.
          if_holds Keeps (ltb (length t.channel) channel_capacity) _ _
            (λ small. record {
              order = λ k.
                  ap (λ x. t.written ++ x) (to_come-push t.writer t.channel c t.unread)
                  ∙ rw e at (h.order k);
              begun = h.begun;
              drained = λ w. absurd (ground (arith, rw e at (h.drained w)));
              hashed = h.hashed;
              over = tt;
              count = h.count;
              room = ground (arith, length-append t.channel (c ∷ []));
            })
            (λ full. h))
  on_push-IsFlow at_read t e h = h
  on_push-IsFlow (finished c) t e h = h
  on_push-IsFlow reader_failed t e h = h
  -- The writer moves on with its chunk.
