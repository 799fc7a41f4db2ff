-- ===== src/Nodes/Views.antt =====
-- What is seen of an inode through its number, before and after a member function changed one.
use dagon_fs.Prelude.{
  ℕ, ◌≡◌, ◌≢◌, refl, ap, sym, ◌∙◌, inl, inr, Option, some, ◌>>=◌, arith, get_elem?-set_self,
  get_elem?-set_ne, get_elem?-lt, ℕ_discrete, Option-cases, subst, >>=-eq-some, some-injective,
}
use dagon_fs.Map.{Map, insert, erase}
use dagon_fs.Map.Keys.{Name, name_ord}
use dagon_fs.Nodes.{
  sub64, INode, Nodes, attr_of, get_inode, modify_inode, as_directory, lookup, add_hard_link,
  remove_hard_link, update_child, delete_child,
}

-- A view `p` of the inode at a number.
abbrev pub view : {B : Type 0} → (INode → Option B) → ℕ → Nodes → Option B
view p i ns = get_inode i ns >>= p

abbrev pub links : INode → Option ℕ
links x = some (attr_of x).st_nlink

pub get_inode-modify_self :
    (i : ℕ) (f : INode → INode) (ns : Nodes) (x : INode)
    → get_inode i ns ≡ some x
    → get_inode i (modify_inode i f ns) ≡ some (f x)
unfolding modify_inode
get_inode-modify_self i f ns x e =
    rw (e, modify_inode) (get_elem?-set_self ns.inodes i (f x) (get_elem?-lt ns.inodes i x e))

pub get_inode-modify_ne :
    (i j : ℕ) (f : INode → INode) (ns : Nodes)
    → i ≢ j
    → get_inode j (modify_inode i f ns) ≡ get_inode j ns
unfolding modify_inode
get_inode-modify_ne i j f ns h = elim (Option-cases (get_inode i ns)) [
  | inl missing ↦ rw (missing, modify_inode) refl
  | inr (x, found) ↦ rw (found, modify_inode) (get_elem?-set_ne ns.inodes i j (f x) h)
]

module _ {B : Type 0} (p : INode → Option B) (i : ℕ) (f : INode → INode) (ns : Nodes) where
  pub view-modify_self :
      (x : INode) → get_inode i ns ≡ some x → view p i (modify_inode i f ns) ≡ p (f x)
  view-modify_self x e = ap (λ o. o >>= p) (get_inode-modify_self i f ns x e)

  pub view-modify_ne : (j : ℕ) → i ≢ j → view p j (modify_inode i f ns) ≡ view p j ns
  view-modify_ne j h = ap (λ o. o >>= p) (get_inode-modify_ne i j f ns h)

  -- A change that the view does not show.
  pub view-modify_kept :
      (j : ℕ) → ((x : INode) → p (f x) ≡ p x) → view p j (modify_inode i f ns) ≡ view p j ns
  unfolding modify_inode
  view-modify_kept j kept = elim (ℕ_discrete i j) [
    | no other ↦ view-modify_ne j other
    | yes same ↦ elim (Option-cases (get_inode i ns)) [
      | inl missing ↦ rw (missing, modify_inode) refl
      | inr (x, found) ↦
          subst (λ t. view p t (modify_inode i f ns) ≡ view p t ns) same
            (view-modify_self x found ∙ kept x ∙ sym (ap (λ o. o >>= p) found))
    ]
  ]

as_directory-update_child :
    (name : Name) (ino : ℕ) (x : INode) (old : Map Name ℕ)
    → as_directory x ≡ some old
    → as_directory (update_child name ino x) ≡ some (insert name ino old)
unfolding update_child
as_directory-update_child name ino x old e = ground arith

as_directory-delete_child :
    (name : Name) (x : INode) (old : Map Name ℕ)
    → as_directory x ≡ some old
    → as_directory (delete_child name x) ≡ some (erase name old)
unfolding delete_child
as_directory-delete_child name x old e = ground arith

pub as_directory-remove_hard_link : (x : INode) → as_directory (remove_hard_link x) ≡ as_directory x
unfolding remove_hard_link
as_directory-remove_hard_link x = ground arith

pub as_directory-add_hard_link : (x : INode) → as_directory (add_hard_link x) ≡ as_directory x
unfolding add_hard_link
as_directory-add_hard_link x = refl

pub as_directory-lookup : (x : INode) → as_directory (lookup x) ≡ as_directory x
unfolding lookup
as_directory-lookup x = refl

links-update_child : (name : Name) (ino : ℕ) (x : INode) → links (update_child name ino x) ≡ links x
unfolding update_child
links-update_child name ino x = refl

pub links-delete_child : (name : Name) (x : INode) → links (delete_child name x) ≡ links x
unfolding delete_child
links-delete_child name x = refl

pub children-update_child :
    (i : ℕ) (name : Name) (ino : ℕ) (ns : Nodes) (old : Map Name ℕ)
    → view as_directory i ns ≡ some old
    → view as_directory i (modify_inode i (update_child name ino) ns) ≡ some (insert name ino old)
children-update_child i name ino ns old e =
    let (x, found, is_dir) = >>=-eq-some (get_inode i ns) as_directory e in
    view-modify_self as_directory i (update_child name ino) ns x found
    ∙ as_directory-update_child name ino x old is_dir

pub children-delete_child :
    (i : ℕ) (name : Name) (ns : Nodes) (old : Map Name ℕ)
    → view as_directory i ns ≡ some old
    → view as_directory i (modify_inode i (delete_child name) ns) ≡ some (erase name old)
children-delete_child i name ns old e =
    let (x, found, is_dir) = >>=-eq-some (get_inode i ns) as_directory e in
    view-modify_self as_directory i (delete_child name) ns x found
    ∙ as_directory-delete_child name x old is_dir

pub links-remove_hard_link :
    (x : INode) → links (remove_hard_link x) ≡ some (sub64 (attr_of x).st_nlink 1)
unfolding remove_hard_link
links-remove_hard_link x = ground arith

pub fewer_links :
    (i : ℕ) (ns : Nodes) (k : ℕ)
    → view links i ns ≡ some k
    → view links i (modify_inode i remove_hard_link ns) ≡ some (sub64 k 1)
fewer_links i ns k e =
    let (x, found, counted) = >>=-eq-some (get_inode i ns) links e in
    view-modify_self links i remove_hard_link ns x found
    ∙ links-remove_hard_link x
    ∙ ap (λ t. some (sub64 t 1)) (some-injective _ _ counted)
