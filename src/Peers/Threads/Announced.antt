-- ===== src/Peers/Threads/Announced.antt =====
-- What the process of two threads announces.
use dagon_fs.Prelude.{
  ◌≡◌, refl, ap, sym, ◌∙◌, Bool, true, false, Option, none, some, List, [], ◌∷◌, ◌++◌, append-nil,
  append_assoc, if◌then◌else◌, ◌>>=◌, >>=-eq-some, some-injective,
}
use dagon_fs.FileSystem.{Env}
use dagon_fs.FileSystem.Requests.{Request}
use dagon_fs.Peers.{Peer, Flags, RequestType}
use dagon_fs.Peers.Handlers.{peer_handle}
use dagon_fs.Peers.Handlers.Announcing.{packets, from_thread, cleared}
use dagon_fs.Peers.Loop.{raise, raised}
use dagon_fs.Peers.Threads.{
  Event, own, raises, asked, step, run_threads, announces, disturbs, orderly, granted, news,
  all_news, last_fails, fails,
}
use dagon_fs.Peers.Threads.Flagged.{
  IsClear, while_asking, from_thread_clear, cleared_clear, from_thread-raise, cleared-raise,
  raise-announces, peer_handle-clear, peer_handle-raised,
}

undisturbed :
    (asking : Option RequestType) (r : Request) (f : Flags)
    → IsClear f
    → disturbs asking r ≡ false
    → (from_thread r (while_asking asking f) ≡ false)
      × (cleared r (while_asking asking f) ≡ while_asking asking f)
undisturbed none r f c e = (from_thread_clear r f c, cleared_clear r f c)
undisturbed (some type) r f c e = (
  from_thread-raise type r f e ∙ from_thread_clear r f c,
  cleared-raise type r f e ∙ ap (raise type) (cleared_clear r f c),
)

-- The request of a program.
own-news :
    (env : Env) (r : Request) (asking : Option RequestType) (f : Flags) (p q : Peer)
    → IsClear f
    → p.flags ≡ while_asking asking f
    → disturbs asking r ≡ false
    → peer_handle env r p ≡ some q
    → (q.sent ≡ p.sent ++ news (own env r) p q) × (q.flags ≡ while_asking asking f)
own-news env r asking f p q c flags e handled =
    let (unflagged, kept) = undisturbed asking r f c e in
    let (sent, same) =
      peer_handle-clear env r p q (ap (from_thread r) flags ∙ unflagged)
        (ap (cleared r) flags ∙ kept ∙ sym flags) handled in
    (sent, same ∙ flags)

-- The request that the loop waits for.
asked-silent :
    (env : Env) (r : Request) (type : RequestType) (f : Flags) (p q : Peer)
    → IsClear f
    → p.flags ≡ raise type f
    → announces type r ≡ true
    → last_fails q.fs.replies ≡ false
    → peer_handle env r p ≡ some q
    → (q.sent ≡ p.sent) × (q.flags ≡ f)
asked-silent env r type f p q c flags e succeeds handled =
    let (flagged, lowers) = raise-announces type r f e in
    let (sent, same) =
      peer_handle-raised env r p q (ap (from_thread r) flags ∙ flagged) succeeds handled in
    (sent, same ∙ ap (cleared r) flags ∙ lowers ∙ cleared_clear r f c)

if_true : (b c : Bool) → (if b then c else false) ≡ true → (b ≡ true) × (c ≡ true)
if_true true c e = (refl, e)
if_true false c e = cc e

if_false : (b c : Bool) → (if b then false else c) ≡ true → (b ≡ false) × (c ≡ true)
if_false true c e = cc e
if_false false c e = (refl, e)

all_news-step :
    (e : Event) (rest : List Event) (p q : Peer)
    → step e p ≡ some q
    → all_news (e ∷ rest) p ≡ news e p q ++ all_news rest q
unfolding all_news
all_news-step e rest p q done =
    ap (λ o. elim o [ none ↦ [] | some q ↦ news e p q ++ all_news rest q ]) done

granted-step :
    (e : Event) (rest : List Event) (p q : Peer)
    → step e p ≡ some q
    → granted (e ∷ rest) p ≡ true
    → (fails e q ≡ false) × (granted rest q ≡ true)
unfolding granted
granted-step e rest p q done succeed = if_false (fails e q) (granted rest q) (
    sym (
      ap (λ o. elim o [ none ↦ false | some q ↦ if fails e q then false else granted rest q ]) done)
    ∙ succeed)

-- What is sent behind an event is sent behind the whole run.
joined :
    (e : Event) (rest : List Event) (p q t : Peer)
    → step e p ≡ some q
    → q.sent ≡ p.sent ++ news e p q
    → t.sent ≡ q.sent ++ all_news rest q
    → t.sent ≡ p.sent ++ all_news (e ∷ rest) p
joined e rest p q t done now later =
    later
    ∙ ap (λ l. l ++ all_news rest q) now
    ∙ append_assoc p.sent (news e p q) (all_news rest q)
    ∙ ap (λ l. p.sent ++ l) (sym (all_news-step e rest p q done))

-- The same from a state in which a handler of the loop may wait for its call.
run_threads-asking :
    (es : List Event) (asking : Option RequestType) (f : Flags) (p t : Peer)
    → IsClear f
    → p.flags ≡ while_asking asking f
    → orderly asking es ≡ true
    → granted es p ≡ true
    → run_threads es p ≡ some t
    → (t.sent ≡ p.sent ++ all_news es p) × (t.flags ≡ f)
unfolding run_threads orderly all_news
run_threads-asking [] none f p t c flags in_order succeed ran =
    let same : p ≡ t = some-injective _ _ ran in
    (ap (λ q. q.sent) (sym same) ∙ sym (append-nil p.sent), ap (λ q. q.flags) (sym same) ∙ flags)
run_threads-asking [] (some type) f p t c flags in_order succeed ran = cc in_order
run_threads-asking (own env r ∷ rest) asking f p t c flags in_order succeed ran =
    let (apart, others) = if_false (disturbs asking r) (orderly asking rest) in_order in
    let (q, done, more) = >>=-eq-some (peer_handle env r p) (run_threads rest) ran in
    let (_, left) = granted-step (own env r) rest p q done succeed in
    let (sent, now) = own-news env r asking f p q c flags apart done in
    let (later, last) = run_threads-asking rest asking f q t c now others left more in
    (joined (own env r) rest p q t done sent later, last)
run_threads-asking (raises type ∷ rest) none f p t c flags in_order succeed ran =
    let q = raised type p in
    let (_, left) = granted-step (raises type) rest p q refl succeed in
    let (later, last) =
      run_threads-asking rest (some type) f q t c (ap (raise type) flags) in_order left ran in
    (joined (raises type) rest p q t refl (sym (append-nil p.sent)) later, last)
run_threads-asking (raises type' ∷ rest) (some type) f p t c flags in_order succeed ran =
    cc in_order
run_threads-asking (asked env r ∷ rest) none f p t c flags in_order succeed ran = cc in_order
run_threads-asking (asked env r ∷ rest) (some type) f p t c flags in_order succeed ran =
    let (same_type, others) = if_true (announces type r) (orderly none rest) in_order in
    let (q, done, more) = >>=-eq-some (peer_handle env r p) (run_threads rest) ran in
    let (succeeds, left) = granted-step (asked env r) rest p q done succeed in
    let (sent, now) = asked-silent env r type f p q c flags same_type succeeds done in
    let (later, last) = run_threads-asking rest none f q t c now others left more in
    (joined (asked env r) rest p q t done (sent ∙ sym (append-nil p.sent)) later, last)

-- The two threads of a process do any number of events in any order; the flags are clear at first,
-- the loop waits for each call before its next, each call succeeds and reaches the
-- process as a request of its type, and meanwhile no program makes a request of that type. Then
-- the process announces exactly the requests of its programs that succeed, in their order, and
-- nothing that another process has announced; and the flags are clear again.
pub run_threads-all_news :
    (es : List Event) (p t : Peer)
    → IsClear p.flags
    → orderly none es ≡ true
    → granted es p ≡ true
    → run_threads es p ≡ some t
    → (t.sent ≡ p.sent ++ all_news es p) × (t.flags ≡ p.flags)
run_threads-all_news es p t c in_order succeed ran =
    run_threads-asking es none p.flags p t c refl in_order succeed ran

-- At a process whose flags are clear: if a program makes a request that is announced as a type,
-- after the loop has raised the flag of the type and before its own call arrives, and both succeed,
-- then the program's request is announced to nobody, and the one that another process had announced
-- is announced again, to all processes.
pub run_threads-race :
    (env : Env) (type : RequestType) (r late : Request) (p q t : Peer)
    → IsClear p.flags
    → announces type r ≡ true
    → announces type late ≡ true
    → step (own env r) (raised type p) ≡ some q
    → last_fails q.fs.replies ≡ false
    → step (asked env late) q ≡ some t
    → last_fails t.fs.replies ≡ false
    → (run_threads (raises type ∷ own env r ∷ asked env late ∷ []) p ≡ some t)
      × (t.sent ≡ p.sent ++ packets late q)
unfolding run_threads
run_threads-race env type r late p q t c first second done succeeds arrived grants =
    let (kept, clear) =
      asked-silent env r type p.flags (raised type p) q c refl first succeeds done in
    let (sent, _) = own-news env late none p.flags q t c clear refl arrived in
    (
      ap (λ o. o >>= λ q. step (asked env late) q >>= some) done ∙ ap (λ o. o >>= some) arrived,
      sent
          ∙ ap (λ l. l ++ (if last_fails t.fs.replies then [] else packets late q)) kept
          ∙ ap (λ b. p.sent ++ (if b then [] else packets late q)) grants,
    )
