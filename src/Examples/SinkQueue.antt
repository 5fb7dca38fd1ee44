-- ===== src/Examples/SinkQueue.antt =====
-- A sink's queue over a channel that is a list.
use dnsconduit.Common.{
  ℕ, ◌≤◌, ◌<◌, ◌≡◌, refl, true, false, List, [], ◌∷◌, ◌++◌, arith, if◌then◌else◌, length, ltb,
}
use dnsconduit.SinkQueue.{drop_oldest, sent, full, SendResult, Channel, new}
use dnsconduit.SinkQueue.Retention.{enqueue_all, enqueue_all-kept}

abbrev ListChannel : Type 0
ListChannel = ℕ × List ℕ

abbrev tail_of : List ℕ → List ℕ
tail_of [] = []
tail_of (e ∷ es) = es

abbrev send_list : ListChannel → ℕ → ListChannel × SendResult
send_list c e = if ltb (length c.1) c.0 then ((c.0, c.1 ++ (e ∷ [])), sent) else (c, full)

send_list_room :
    (c : ListChannel) (e : ℕ)
    → length c.1 < c.0
    → ((send_list c e).1 ≡ sent)
      × ((send_list c e).0.1 ≡ c.1 ++ (e ∷ []))
      × ((send_list c e).0.0 ≡ c.0)
send_list_room c e h =
    let room : ltb (length c.1) c.0 ≡ true = ground arith in rw room (refl, refl, refl)

send_list_full :
    (c : ListChannel) (e : ℕ)
    → c.0 ≤ length c.1
    → ((send_list c e).1 ≡ full) × ((send_list c e).0.1 ≡ c.1) × ((send_list c e).0.0 ≡ c.0)
send_list_full c e h =
    let over : ltb (length c.1) c.0 ≡ false = ground arith in rw over (refl, refl, refl)

recv_list_first :
    (c : ListChannel) (e : ℕ) (es : List ℕ) → c.1 ≡ e ∷ es → (tail_of c.1 ≡ es) × (c.0 ≡ c.0)
recv_list_first c e es h = rw h (refl, refl)

recv_list_empty : (c : ListChannel) → c.1 ≡ [] → (tail_of c.1 ≡ []) × (c.0 ≡ c.0)
recv_list_empty c h = rw h (refl, refl)

abbrev list_channel : Channel ℕ ListChannel
list_channel = record {
  bounded = λ n. (n, []);
  try_send = send_list;
  try_recv = λ c. (c.0, tail_of c.1);
  capacity = λ c. c.0;
  contents = λ c. c.1;
  bounded_empty = λ n. (refl, refl);
  send_room = send_list_room;
  send_full = send_list_full;
  recv_first = recv_list_first;
  recv_empty = recv_list_empty;
}

enqueue_all-kept_example :
    (list_channel.contents
        (enqueue_all list_channel drop_oldest (new list_channel 3) (1 ∷ 2 ∷ 3 ∷ 4 ∷ [])).0
      ≡ 2 ∷ 3 ∷ 4 ∷ [])
    × ((enqueue_all list_channel drop_oldest (new list_channel 3) (1 ∷ 2 ∷ 3 ∷ 4 ∷ [])).1 ≡ 1)
enqueue_all-kept_example = enqueue_all-kept list_channel drop_oldest 3 (1 ∷ 2 ∷ 3 ∷ 4 ∷ [])
