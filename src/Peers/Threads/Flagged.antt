-- ===== src/Peers/Threads/Flagged.antt =====
-- How the requests read and clear the flags that the two threads of a process share.
use dagon_fs.Prelude.{
  ◌≡◌, inl, inr, refl, ap, sym, ◌∙◌, Bool, true, false, Option, none, some, List, [], ◌∷◌, ◌++◌,
  append-nil, if◌then◌else◌,
}
use dagon_fs.FileSystem.{Env, Fs, success, err}
use dagon_fs.FileSystem.Requests.{Request}
use dagon_fs.Peers.{
  Peer, Flags, RequestType, terminate, create_file, delete_file, create_dir, delete_dir, rename,
}
use dagon_fs.Peers.Handlers.{peer_handle}
use dagon_fs.Peers.Handlers.Announcing.{packets, from_thread, cleared, Succeeds, Refused}
use dagon_fs.Peers.Handlers.Broadcast.{peer_handle-Told}
use dagon_fs.Peers.Loop.{raise}
use dagon_fs.Peers.Threads.{announces, last_fails}

-- No request is taken for one of another process.
pub record IsClear (f : Flags) : Type 0 where
  pub no_file : f.create_file_from_thread ≡ false
  pub no_deletion : f.delete_file_from_thread ≡ false
  pub no_dir : f.create_dir_from_thread ≡ false
  pub no_dir_deletion : f.delete_dir_from_thread ≡ false
  pub no_rename : f.rename_from_thread ≡ false

-- The flags while a handler of the loop waits for its call.
abbrev pub while_asking : Option RequestType → Flags → Flags
while_asking none f = f
while_asking (some type) f = raise type f

pub from_thread_clear : (r : Request) (f : Flags) → IsClear f → from_thread r f ≡ false
from_thread_clear (Request.mkdir parent name) f c = c.no_dir
from_thread_clear (Request.create parent name truncates) f c = c.no_file
from_thread_clear (Request.unlink parent name) f c = c.no_deletion
from_thread_clear (Request.rmdir parent name) f c = c.no_dir_deletion
from_thread_clear (Request.rename parent name newparent newname) f c = c.no_rename
from_thread_clear _ f c = refl

pub cleared_clear : (r : Request) (f : Flags) → IsClear f → cleared r f ≡ f
cleared_clear (Request.mkdir parent name) f c =
    ap (λ b. record f { create_dir_from_thread = b }) (sym c.no_dir)
cleared_clear (Request.create parent name truncates) f c =
    ap (λ b. record f { create_file_from_thread = b }) (sym c.no_file)
cleared_clear (Request.unlink parent name) f c =
    ap (λ b. record f { delete_file_from_thread = b }) (sym c.no_deletion)
cleared_clear (Request.rmdir parent name) f c =
    ap (λ b. record f { delete_dir_from_thread = b }) (sym c.no_dir_deletion)
cleared_clear (Request.rename parent name newparent newname) f c =
    ap (λ b. record f { rename_from_thread = b }) (sym c.no_rename)
cleared_clear _ f c = refl

-- A flag that is raised for another type changes nothing for a request.
pub from_thread-raise :
    (type : RequestType) (r : Request) (f : Flags)
    → announces type r ≡ false
    → from_thread r (raise type f) ≡ from_thread r f
from_thread-raise create_file (Request.create parent name truncates) f e = cc e
from_thread-raise delete_file (Request.unlink parent name) f e = cc e
from_thread-raise create_dir (Request.mkdir parent name) f e = cc e
from_thread-raise delete_dir (Request.rmdir parent name) f e = cc e
from_thread-raise rename (Request.rename parent name newparent newname) f e = cc e
from_thread-raise terminate (Request.mkdir parent name) f e = refl
from_thread-raise _ _ f e = refl

pub cleared-raise :
    (type : RequestType) (r : Request) (f : Flags)
    → announces type r ≡ false
    → cleared r (raise type f) ≡ raise type (cleared r f)
cleared-raise create_file (Request.create parent name truncates) f e = cc e
cleared-raise delete_file (Request.unlink parent name) f e = cc e
cleared-raise create_dir (Request.mkdir parent name) f e = cc e
cleared-raise delete_dir (Request.rmdir parent name) f e = cc e
cleared-raise rename (Request.rename parent name newparent newname) f e = cc e
cleared-raise terminate (Request.mkdir parent name) f e = refl
cleared-raise _ _ f e = refl

-- The request of a type finds the flag of the type raised, and clears it.
pub raise-announces :
    (type : RequestType) (r : Request) (f : Flags)
    → announces type r ≡ true
    → (from_thread r (raise type f) ≡ true) × (cleared r (raise type f) ≡ cleared r f)
raise-announces create_file (Request.create parent name truncates) f e = (refl, refl)
raise-announces delete_file (Request.unlink parent name) f e = (refl, refl)
raise-announces create_dir (Request.mkdir parent name) f e = (refl, refl)
raise-announces delete_dir (Request.rmdir parent name) f e = (refl, refl)
raise-announces rename (Request.rename parent name newparent newname) f e = (refl, refl)
raise-announces _ _ f e = cc e

last_fails-Succeeds : (s : Fs) → Succeeds s → last_fails s.replies ≡ false
last_fails-Succeeds s (err e, rest, is_last, fine) =
    ap last_fails is_last ∙ ap (λ e. last_fails (err e ∷ [])) (fine e refl)
last_fails-Succeeds s (last, rest, is_last, fine) = ap last_fails is_last

last_fails-Refused : (p q : Peer) → Refused p q → last_fails q.fs.replies ≡ true
last_fails-Refused p q (success, wrong, replied, sent, flags) = elim (wrong refl) [ ]
last_fails-Refused p q (e, wrong, replied, sent, flags) = ap last_fails replied

if_same : {A : Type 0} (b : Bool) (x : List A) → x ≡ [] → (if b then [] else x) ≡ x
if_same true x e = sym e
if_same false x e = refl

-- A request that finds its flag clear announces itself if it succeeds, and leaves the flags.
pub peer_handle-clear :
    (env : Env) (r : Request) (p q : Peer)
    → from_thread r p.flags ≡ false
    → cleared r p.flags ≡ p.flags
    → peer_handle env r p ≡ some q
    → (q.sent ≡ p.sent ++ (if last_fails q.fs.replies then [] else packets r p))
      × (q.flags ≡ p.flags)
peer_handle-clear env r p q unflagged kept handled = elim (peer_handle-Told env r p q handled) [
  | inl (sent, flags, inl nothing) ↦ (
    sent
        ∙ ap (λ b. p.sent ++ (if b then [] else packets r p)) unflagged
        ∙ ap (λ l. p.sent ++ l) (sym (if_same (last_fails q.fs.replies) (packets r p) nothing)),
    flags ∙ kept,
  )
  | inl (sent, flags, inr fine) ↦ (
    sent
        ∙ ap (λ b. p.sent ++ (if b then [] else packets r p))
            (unflagged ∙ sym (last_fails-Succeeds q.fs fine)),
    flags ∙ kept,
  )
  | inr refusal ↦ (
    refusal.3
        ∙ sym (append-nil p.sent)
        ∙ ap (λ b. p.sent ++ (if b then [] else packets r p))
            (sym (last_fails-Refused p q refusal)),
    refusal.4,
  )
]

-- A request that finds its flag raised announces nothing if it succeeds, and clears the flag.
pub peer_handle-raised :
    (env : Env) (r : Request) (p q : Peer)
    → from_thread r p.flags ≡ true
    → last_fails q.fs.replies ≡ false
    → peer_handle env r p ≡ some q
    → (q.sent ≡ p.sent) × (q.flags ≡ cleared r p.flags)
peer_handle-raised env r p q flagged succeeds handled = elim (peer_handle-Told env r p q handled) [
  | inl (sent, flags, fine) ↦ (
    sent ∙ ap (λ b. p.sent ++ (if b then [] else packets r p)) flagged ∙ append-nil p.sent,
    flags,
  )
  | inr refusal ↦ cc (sym succeeds ∙ last_fails-Refused p q refusal)
]
