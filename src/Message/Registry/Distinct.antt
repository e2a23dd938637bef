-- ===== src/Message/Registry/Distinct.antt =====
-- The ids of a registry in include/corerat/messaging/message_registry.hpp: whether two of its
-- definitions can share one.
use core_ra_t.Base.{
  ℕ, ◌+◌, ◌^◌, ◌<◌, ◌≤◌, ◌≡◌, ◌≢◌, refl, sym, ap, subst, ◌∙◌, arith, true, false, not, ◌&&◌, [],
  ◌∷◌, ◌++◌, append-nil, append_assoc, length, ltb, if◌then◌else◌, Option-cases, inl, inr,
}
use core_ra_t.Message.Id.{
  MessageDefinition, id_of, subprefix, subprefix_byte, prefix_byte, max_message_id, is_reply,
  reply_of, make_message_id, make_message_id-injective,
}
use core_ra_t.Message.Registry.{
  Definitions, expand_replies, same_category, highest_from, highest_id, with_id, current_processed,
  auto_assign_ids_process, processed, check_all_pairs, check, IsNew, IsDistinct,
}

-- Every id is one of a request, up to `bound`, and every subprefix is a byte.
abbrev pub IsRange : ℕ → Definitions → Type 0
IsRange bound [] = Unit {0}
IsRange bound (d ∷ ds) =
    (subprefix d < 256) × (0 < d.local_id) × (d.local_id ≤ bound) × IsRange bound ds

-- Every definition leaves its id to the registry, and every subprefix is a byte.
abbrev pub IsAuto : Definitions → Type 0
IsAuto [] = Unit {0}
IsAuto (d ∷ ds) = (subprefix d < 256) × (d.local_id ≡ 0) × IsAuto ds

highest_from-above : (ps : Definitions) (d : MessageDefinition) (m : ℕ) → m ≤ highest_from ps d m
unfolding highest_from
highest_from-above [] d m = omega (arith)
highest_from-above (p ∷ ps) d m =
    let m' =
      (if same_category p d && not (is_reply p) && ltb m p.local_id then p.local_id else m) in
    ground (arith, highest_from-above ps d m')

highest_from-bound :
    (bound : ℕ) (ps : Definitions) (d : MessageDefinition) (m : ℕ)
    → IsRange bound ps
    → m ≤ bound
    → highest_from ps d m ≤ bound
unfolding highest_from
highest_from-bound bound [] d m v h = h
highest_from-bound bound (p ∷ ps) d m v h =
    let m' =
      (if same_category p d && not (is_reply p) && ltb m p.local_id then p.local_id else m) in
    highest_from-bound bound ps d m' v.3 (ground (arith, v.2, h))

id_of-≢ :
    (d e : MessageDefinition)
    → subprefix d < 256
    → subprefix e < 256
    → d.local_id < 2 ^ 16
    → e.local_id < 2 ^ 16
    → ((prefix_byte d.prefix ≡ prefix_byte e.prefix)
        → (subprefix d ≡ subprefix e)
        → d.local_id ≢ e.local_id)
    → id_of d ≢ id_of e
id_of-≢ d e sd se id ie h q =
    let (p, s, i) =
      make_message_id-injective (prefix_byte d.prefix) (subprefix d) d.local_id
        (prefix_byte e.prefix) (subprefix e) e.local_id sd id se ie q in
    h p s i

highest_from-IsNew :
    (bound : ℕ) (ps : Definitions) (d : MessageDefinition) (m n : ℕ)
    → IsRange bound ps
    → bound ≤ max_message_id
    → subprefix d < 256
    → highest_from ps d m < n
    → n < 2 ^ 16
    → IsNew (id_of (with_id d n)) ps
unfolding highest_from is_reply subprefix_byte
highest_from-IsNew bound [] d m n v b s h w = tt
highest_from-IsNew bound (p ∷ ps) d m n v b s h w =
    let m' =
      (if same_category p d && not (is_reply p) && ltb m p.local_id then p.local_id else m) in
    (
      id_of-≢ p (with_id d n) v.0 s (omega (arith, v.2, b)) w
          (λ e c i. ground (arith, highest_from-above ps d m', h, v.1, v.2, b, e, c, i)),
      highest_from-IsNew bound ps d m' n v.3 b s h w,
    )

-- What a definition becomes at its turn, in a registry whose definitions so far are `ps`.
abbrev pub Fits : ℕ → Definitions → MessageDefinition → Type 0
Fits bound ps c =
    IsNew (id_of c) ps × (subprefix c < 256) × (0 < c.local_id) × (c.local_id ≤ bound + 1)

current_processed-Fits :
    (bound : ℕ) (ps : Definitions) (d : MessageDefinition)
    → IsRange bound ps
    → bound < max_message_id
    → subprefix d < 256
    → d.local_id ≡ 0
    → Fits bound ps (current_processed ps d)
unfolding subprefix_byte
current_processed-Fits bound ps d v b s z =
    let n = highest_id ps d + 1 in
    let auto : with_id d n ≡ current_processed ps d = ground (arith, z) in
    let low : highest_id ps d ≤ bound = highest_from-bound bound ps d 0 v (omega (arith)) in
    subst (Fits bound ps) auto (
      highest_from-IsNew bound ps d 0 n v (omega (arith, b)) s (omega (arith))
          (omega (arith, low, b)),
      s,
      omega (arith),
      omega (arith, low),
    )

IsNew-append :
    (k : ℕ) (ps : Definitions) (c : MessageDefinition)
    → IsNew k ps
    → id_of c ≢ k
    → IsNew k (ps ++ (c ∷ []))
IsNew-append k [] c v h = (h, tt)
IsNew-append k (p ∷ ps) c v h = (v.0, IsNew-append k ps c v.1 h)

IsDistinct-append :
    (ps : Definitions) (c : MessageDefinition)
    → IsDistinct ps
    → IsNew (id_of c) ps
    → IsDistinct (ps ++ (c ∷ []))
IsDistinct-append [] c v h = (tt, tt)
IsDistinct-append (p ∷ ps) c v h =
    (IsNew-append (id_of p) ps c v.0 (λ e. h.0 (sym e)), IsDistinct-append ps c v.1 h.1)

IsRange-append :
    (bound : ℕ) (ps : Definitions) (c : MessageDefinition)
    → IsRange bound ps
    → Fits bound ps c
    → IsRange (bound + 1) (ps ++ (c ∷ []))
IsRange-append bound [] c v h = (h.1, h.2, h.3, tt)
IsRange-append bound (p ∷ ps) c v h =
    (v.0, v.1, omega (arith, v.2), IsRange-append bound ps c v.3 (h.0.1, h.1, h.2, h.3))

abbrev IsNumbered : ℕ → Definitions → Type 0
IsNumbered bound ps = IsDistinct ps × IsRange bound ps

auto_assign_ids_process-IsNumbered :
    (ds ps : Definitions) (bound : ℕ)
    → IsNumbered bound ps
    → IsAuto ds
    → bound + length ds ≤ max_message_id
    → IsNumbered (bound + length ds) (ps ++ auto_assign_ids_process ps ds)
unfolding auto_assign_ids_process
auto_assign_ids_process-IsNumbered [] ps bound v a b =
    subst (λ x. IsNumbered x (ps ++ [])) (omega (arith))
      (subst (IsNumbered bound) (sym (append-nil ps)) v)
auto_assign_ids_process-IsNumbered (d ∷ ds) ps bound v a b =
    let c = current_processed ps d in
    let fits = current_processed-Fits bound ps d v.1 (omega (arith, b)) a.0 a.1 in
    let rest =
      auto_assign_ids_process-IsNumbered ds (ps ++ (c ∷ [])) (bound + 1)
        (IsDistinct-append ps c v.0 fits.0, IsRange-append bound ps c v.1 fits) a.2
        (omega (arith, b)) in
    subst (λ x. IsNumbered x (ps ++ (c ∷ auto_assign_ids_process (ps ++ (c ∷ [])) ds)))
      (omega (arith))
      (subst (IsNumbered (bound + 1 + length ds))
        (append_assoc ps (c ∷ []) (auto_assign_ids_process (ps ++ (c ∷ [])) ds)) rest)

-- What holds of both forms that the expansion of a definition can have holds of the expansion.
expand_replies-elim :
    (P : Definitions → Type 0) (d : MessageDefinition) (ds : Definitions)
    → P (d ∷ expand_replies ds)
    → ((r : ℕ) → P (d ∷ reply_of d r ∷ expand_replies ds))
    → P (expand_replies (d ∷ ds))
unfolding expand_replies
expand_replies-elim P d ds n s = elim (Option-cases d.reply) [
  | inl e ↦ subst P (ground (arith, e)) n
  | inr (r, e) ↦ subst P (ground (arith, e)) (s r)
]

request-≢ :
    (bound r : ℕ) (d e : MessageDefinition)
    → (subprefix d < 256) × (0 < d.local_id) × (d.local_id ≤ bound)
    → (subprefix e < 256) × (0 < e.local_id) × (e.local_id ≤ bound)
    → bound ≤ max_message_id
    → id_of (reply_of e r) ≢ id_of d
request-≢ bound r d e v w b =
    id_of-≢ (reply_of e r) d w.0 v.0 (omega (arith, w.1, w.2, b)) (omega (arith, v.2, b))
      (λ p s i. omega (arith, i, v.1, v.2, w.1, w.2, b))

reply-≢ :
    (bound r r' : ℕ) (d e : MessageDefinition)
    → (subprefix d < 256) × (0 < d.local_id) × (d.local_id ≤ bound)
    → (subprefix e < 256) × (0 < e.local_id) × (e.local_id ≤ bound)
    → bound ≤ max_message_id
    → id_of e ≢ id_of d
    → id_of (reply_of e r) ≢ id_of (reply_of d r')
unfolding make_message_id
reply-≢ bound r r' d e v w b h =
    id_of-≢ (reply_of e r) (reply_of d r') w.0 v.0 (omega (arith, w.1, w.2, b))
      (omega (arith, v.1, v.2, b)) (λ p s i. h (omega (arith, p, s, i, v.1, v.2, w.1, w.2, b)))

expand_replies-IsNew :
    (bound : ℕ) (d : MessageDefinition) (ds : Definitions)
    → IsRange bound (d ∷ ds)
    → bound ≤ max_message_id
    → IsNew (id_of d) ds
    → IsNew (id_of d) (expand_replies ds)
unfolding expand_replies
expand_replies-IsNew bound d [] v b h = tt
expand_replies-IsNew bound d (e ∷ es) v b h =
    let rest = expand_replies-IsNew bound d es (v.0, v.1, v.2, v.3.3) b h.1 in
    expand_replies-elim (IsNew (id_of d)) e es (h.0, rest)
      (λ r. (h.0, (request-≢ bound r d e (v.0, v.1, v.2) (v.3.0, v.3.1, v.3.2) b, rest)))

expand_replies-IsNew-reply :
    (bound x : ℕ) (d : MessageDefinition) (ds : Definitions)
    → IsRange bound (d ∷ ds)
    → bound ≤ max_message_id
    → IsNew (id_of d) ds
    → IsNew (id_of (reply_of d x)) (expand_replies ds)
unfolding expand_replies
expand_replies-IsNew-reply bound x d [] v b h = tt
expand_replies-IsNew-reply bound x d (e ∷ es) v b h =
    let rest = expand_replies-IsNew-reply bound x d es (v.0, v.1, v.2, v.3.3) b h.1 in
    let new = request-≢ bound x e d (v.3.0, v.3.1, v.3.2) (v.0, v.1, v.2) b in
    expand_replies-elim (IsNew (id_of (reply_of d x))) e es (λ q. new (sym q), rest)
      (λ r. (
        λ q. new (sym q),
        (reply-≢ bound r x d e (v.0, v.1, v.2) (v.3.0, v.3.1, v.3.2) b h.0, rest),
      ))

expand_replies-IsDistinct :
    (bound : ℕ) (ds : Definitions)
    → IsRange bound ds
    → bound ≤ max_message_id
    → IsDistinct ds
    → IsDistinct (expand_replies ds)
unfolding expand_replies
expand_replies-IsDistinct bound [] v b h = tt
expand_replies-IsDistinct bound (d ∷ ds) v b h =
    let rest = expand_replies-IsDistinct bound ds v.3 b h.1 in
    let new = expand_replies-IsNew bound d ds v b h.0 in
    expand_replies-elim IsDistinct d ds (new, rest)
      (λ r. (
        (request-≢ bound r d d (v.0, v.1, v.2) (v.0, v.1, v.2) b, new),
        (expand_replies-IsNew-reply bound r d ds v b h.0, rest),
      ))

-- Definitions with ids are left as they are.
auto_assign_ids_process-given :
    (bound : ℕ) (ps es ds : Definitions)
    → IsRange bound es
    → auto_assign_ids_process ps (es ++ ds) ≡ es ++ auto_assign_ids_process (ps ++ es) ds
unfolding auto_assign_ids_process
auto_assign_ids_process-given bound ps [] ds v =
    ap (λ x. auto_assign_ids_process x ds) (sym (append-nil ps))
auto_assign_ids_process-given bound ps (e ∷ es) ds v =
    let given : current_processed ps e ≡ e = ground (arith, v.1) in
    ap (λ c. c ∷ auto_assign_ids_process (ps ++ (c ∷ [])) (es ++ ds)) given
    ∙ ap (λ x. e ∷ x)
        (auto_assign_ids_process-given bound (ps ++ (e ∷ [])) es ds v.3
          ∙ ap (λ x. es ++ auto_assign_ids_process x ds) (append_assoc ps (e ∷ []) es))

-- Given definitions with ids that are distinct and up to `bound`, and after them definitions without
-- ids, not too many for the range of ids, the registry of them, with the replies, has distinct ids.
pub processed-IsDistinct :
    (bound : ℕ) (es ds : Definitions)
    → IsRange bound es
    → IsDistinct es
    → IsAuto ds
    → bound + length ds ≤ max_message_id
    → IsDistinct (processed (es ++ ds))
processed-IsDistinct bound es ds v h a b =
    let numbered = auto_assign_ids_process-IsNumbered ds es bound (h, v) a b in
    subst (λ x. IsDistinct (expand_replies x))
      (sym (auto_assign_ids_process-given bound [] es ds v))
      (expand_replies-IsDistinct (bound + length ds) (es ++ auto_assign_ids_process es ds)
        numbered.1 b numbered.0)

-- `check_all_pairs` finds no collision exactly when no two of the definitions share an id.
check_all_pairs-IsDistinct :
    (d e : MessageDefinition) (ds : Definitions)
    → check_all_pairs d e ds ≡ true
    → IsDistinct (d ∷ e ∷ ds)
unfolding check_all_pairs
check_all_pairs-IsDistinct d e [] h = ((ground (arith, h), tt), (tt, tt))
check_all_pairs-IsDistinct d e (f ∷ fs) h =
    let left = check_all_pairs-IsDistinct d f fs (ground (arith, h)) in
    let right = check_all_pairs-IsDistinct e f fs (ground (arith, h)) in
    ((ground (arith, h), left.0), right)

IsDistinct-check_all_pairs :
    (d e : MessageDefinition) (ds : Definitions)
    → IsDistinct (d ∷ e ∷ ds)
    → check_all_pairs d e ds ≡ true
unfolding check_all_pairs
IsDistinct-check_all_pairs d e [] h = ground (arith, h.0.0)
IsDistinct-check_all_pairs d e (f ∷ fs) h = ground (
  arith,
  h.0.0,
  IsDistinct-check_all_pairs d f fs (h.0.1, h.1.1),
  IsDistinct-check_all_pairs e f fs (h.1.0, h.1.1),
)

-- The collision check accepts exactly the lists of definitions of which no two share an id.
pub check-IsDistinct :
    (ds : Definitions) → (check ds ≡ true → IsDistinct ds) × (IsDistinct ds → check ds ≡ true)
unfolding check
check-IsDistinct [] = (λ h. tt, λ h. refl)
check-IsDistinct (d ∷ []) = (λ h. (tt, tt), λ h. refl)
check-IsDistinct (d ∷ e ∷ ds) =
    (check_all_pairs-IsDistinct d e ds, IsDistinct-check_all_pairs d e ds)

-- The check is of the definitions as they are given: two of one category that leave their ids to the
-- registry do not pass it.
pub check-auto :
    (d e : MessageDefinition) (ds : Definitions)
    → d.local_id ≡ 0
    → e.local_id ≡ 0
    → d.prefix ≡ e.prefix
    → subprefix d ≡ subprefix e
    → check (d ∷ e ∷ ds) ≡ false
unfolding check check_all_pairs
check-auto d e [] z z' p s = ground (arith, z, z', p, s)
check-auto d e (f ∷ fs) z z' p s = ground (arith, z, z', p, s)
