-- ===== src/Idref/Labels.antt =====
-- A label that is printed for an agent reads back as that agent.
use Prim.Native.Char.{Char, char, code}
use tenex_edge.Base.{
  ◌≤◌, ◌≡◌, ◌∙◌, refl, sym, inl, inr, ap, arith, String, true, false, ◌&&◌, not, Bool-cases, none,
  some, ◌==◌, ◌=?◌, eq_iff, trim, trim_start, trim_end, is_whitespace, concat, all_chars,
  count_chars,
}
use Prim.Native.String.append
use tenex_edge.Idref.{
  agent, agent_label, agent_ref_from, rsplit_once, parse_agent_backend_ref, parse_ref,
}

count-trim_start : (s : String) → count_chars (trim_start s) ≤ count_chars s
unfolding trim_start count_chars
count-trim_start String.[] = omega arith
count-trim_start (String.◌∷◌ c s) = ground (arith, count-trim_start s)

count-trim_end : (s : String) → count_chars (trim_end s) ≤ count_chars s
unfolding trim_end count_chars
count-trim_end String.[] = omega arith
count-trim_end (String.◌∷◌ c s) = elim (Bool-cases (is_whitespace c && trim_end s == "")) [
  | inl blank ↦ rw blank (omega arith)
  | inr plain ↦ rw plain (omega (arith, count-trim_end s))
]

-- The first character of a text that trimming keeps is no blank.
first_kept :
    (c : Char) (s : String) → trim (String.◌∷◌ c s) ≡ String.◌∷◌ c s → is_whitespace c ≡ false
unfolding trim trim_start count_chars
first_kept c s h = elim (Bool-cases (is_whitespace c)) [
  | inl blank ↦
      let shorter : trim_end (trim_start s) ≡ String.◌∷◌ c s = rw blank at h in
      let lengths = ap count_chars shorter in
      absurd (omega (arith, lengths, count-trim_end (trim_start s), count-trim_start s))
  | inr plain ↦ plain
]

start_kept : (s : String) → trim s ≡ s → trim_start s ≡ s
unfolding trim_start
start_kept String.[] h = refl
start_kept (String.◌∷◌ c s) h = rw (first_kept c s h) refl

end_kept : (s : String) → trim s ≡ s → trim_end s ≡ s
unfolding trim
end_kept s h = ap trim_end (sym (start_kept s h)) ∙ h

-- A text whose ends are those of two trimmed texts is trimmed.
trim_start-concat :
    (s t : String) → trim s ≡ s → (s == "") ≡ false → trim_start (concat s t) ≡ concat s t
unfolding trim_start
trim_start-concat String.[] t h some_text = cc some_text
trim_start-concat (String.◌∷◌ c s) t h some_text = rw (append.cons c s t, first_kept c s h) refl

nonempty_cons : (c : Char) (s : String) → (String.◌∷◌ c s == "") ≡ false
nonempty_cons c s = elim (Bool-cases (String.◌∷◌ c s == "")) [
  | inl blank ↦ let same = (eq_iff (String.◌∷◌ c s) "").0 blank in cc same
  | inr full ↦ full
]

nonempty-concat : (s t : String) → (t == "") ≡ false → (concat s t == "") ≡ false
nonempty-concat String.[] t h = rw (append.nil t) h
nonempty-concat (String.◌∷◌ c s) t h = rw (append.cons c s t) (nonempty_cons c (concat s t))

trim_end-concat :
    (s t : String) → trim_end t ≡ t → (t == "") ≡ false → trim_end (concat s t) ≡ concat s t
unfolding trim_end
trim_end-concat String.[] t h some_text = rw (append.nil t) h
trim_end-concat (String.◌∷◌ c s) t h some_text =
    rw (append.cons c s t, trim_end-concat s t h some_text)
      (ground (arith, nonempty-concat s t some_text))

split_none : (s : String) → all_chars (λ c. not (code c =? 64)) s ≡ true → rsplit_once s ≡ none
unfolding all_chars rsplit_once
split_none String.[] h = refl
split_none (String.◌∷◌ c s) h = ground (arith, h, split_none s)

at_sign : (host : String) → concat "@" host ≡ String.◌∷◌ (char 64 tt) host
at_sign host =
    append.cons (char 64 tt) String.[] host ∙ ap (String.◌∷◌ (char 64 tt)) (append.nil host)

split_last :
    (slug host : String)
    → all_chars (λ c. not (code c =? 64)) host ≡ true
    → rsplit_once (concat slug (concat "@" host)) ≡ some (slug, host)
unfolding rsplit_once
split_last String.[] host h =
    rw (append.nil (concat "@" host), at_sign host, rsplit_once, split_none host h) refl
split_last (String.◌∷◌ c s) host h =
    rw (append.cons c s (concat "@" host), rsplit_once, split_last s host h) refl

-- A label is trimmed, not empty, and splits into what it was printed from.
printed :
    (slug host : String)
    → trim slug ≡ slug
    → trim host ≡ host
    → (slug == "") ≡ false
    → (host == "") ≡ false
    → trim (concat slug (concat "@" host)) ≡ concat slug (concat "@" host)
unfolding trim
printed slug host hs hh some_slug some_host =
    let tail_kept = trim_end-concat "@" host (end_kept host hh) some_host in
    let tail_full = nonempty-concat "@" host some_host in
    rw (trim_start-concat slug (concat "@" host) hs some_slug)
      (trim_end-concat slug (concat "@" host) tail_kept tail_full)

labelled :
    (slug host : String)
    → trim host ≡ host
    → (host == "") ≡ false
    → agent_label slug host ≡ concat slug (concat "@" host)
unfolding agent_label
labelled slug host hh some_host = rw (hh, some_host) refl

-- The label of an agent on a backend, whose names are trimmed and not empty, and whose backend has no
-- at sign in its name, reads back as that agent on that backend, whether it is read as an invitation
-- or as a reference; and so does what is printed for it where another backend is the local one.
pub label_reads_back :
    (slug host local_host : String)
    → trim slug ≡ slug
    → trim host ≡ host
    → (slug == "") ≡ false
    → (host == "") ≡ false
    → all_chars (λ c. not (code c =? 64)) host ≡ true
    → (host == trim local_host) ≡ false
    → (parse_agent_backend_ref (agent_label slug host)
        ≡ some (record { slug = slug; backend = some host }))
      × (parse_ref (agent_label slug host) ≡ agent slug host)
      × (parse_ref (agent_ref_from slug host local_host) ≡ agent slug host)
unfolding parse_agent_backend_ref parse_ref agent_ref_from
label_reads_back slug host local_host hs hh some_slug some_host plain apart =
    let whole = printed slug host hs hh some_slug some_host in
    let parts = split_last slug host plain in
    let full = nonempty-concat slug (concat "@" host) (nonempty-concat "@" host some_host) in
    let label = labelled slug host hh some_host in
    (
      rw (label, whole, full, parts, hs, hh, some_slug, some_host) refl,
      rw (label, parse_ref, whole, parts, hs, hh, some_slug, some_host) refl,
      rw (hh, some_host, apart, label, parse_ref, whole, parts, hs, hh, some_slug, some_host) refl,
    )
