-- ===== src/Server/Logs.antt =====
-- vpn_server/internal/server/api_server.go: the connection logs that the API keeps.
use Prim.Native.String.{String}
use masque_vpn.Prelude.{
  ℕ, zero, suc, ◌+◌, ◌-◌, ◌≤◌, ◌≡◌, refl, sym, ap, subst, ◌∙◌, ◌⊎◌, inl, inr, List, [], ◌∷◌, ◌++◌,
  append_assoc, append-nil, arith, length, length-append, length-drop, drop, ltb, ltb→lt, ltb-false,
  Bool-cases, if◌then◌else◌,
}

-- The arguments of `AddConnectionLog`, and the time.
pub record LogEvent : Type 0 where
  pub client_id : String
  pub event_type : String
  pub timestamp : ℕ
  pub details : String

pub record ConnectionLog : Type 0 where
  pub id : ℕ
  pub event : LogEvent

unfoldable pub add_connection_log : LogEvent → List ConnectionLog → List ConnectionLog
add_connection_log event logs =
    let added = logs ++ record { id = length logs + 1; event = event } ∷ [] in
    if ltb 1000 (length added) then drop 100 added else added

-- What `GET /api/v1/logs` answers with.
unfoldable pub get_connection_logs : List ConnectionLog → List ConnectionLog
get_connection_logs logs = if ltb 100 (length logs) then drop (length logs - 100) logs else logs

-- `Close` clears the logs.
abbrev pub close_logs : List ConnectionLog → List ConnectionLog
close_logs logs = []

abbrev pub add_all : List ConnectionLog → List LogEvent → List ConnectionLog
add_all logs [] = logs
add_all logs (e ∷ es) = add_all (add_connection_log e logs) es

abbrev pub events : List ConnectionLog → List LogEvent
events [] = []
events (l ∷ logs) = l.event ∷ events logs

length-events : (logs : List ConnectionLog) → length (events logs) ≡ length logs
length-events [] = refl
length-events (l ∷ logs) = ap suc (length-events logs)

events-append :
    (logs more : List ConnectionLog) → events (logs ++ more) ≡ events logs ++ events more
events-append [] more = refl
events-append (l ∷ logs) more = ap (◌∷◌ l.event) (events-append logs more)

events-drop : (n : ℕ) (logs : List ConnectionLog) → events (drop n logs) ≡ drop n (events logs)
events-drop zero logs = refl
events-drop (suc n) [] = refl
events-drop (suc n) (l ∷ logs) = events-drop n logs

drop-append : (n : ℕ) (es fs : List LogEvent) → n ≤ length es → drop n (es ++ fs) ≡ drop n es ++ fs
drop-append zero es fs h = refl
drop-append (suc n) [] fs h = absurd (omega arith)
drop-append (suc n) (e ∷ es) fs h = drop-append n es fs (omega arith)

drop-nil : (n : ℕ) → drop {A = LogEvent} n [] ≡ []
drop-nil zero = refl
drop-nil (suc n) = refl

drop-drop : (n k : ℕ) (es : List LogEvent) → drop n (drop k es) ≡ drop (k + n) es
drop-drop n zero es = ap (λ m. drop m es) (omega arith)
drop-drop n (suc k) [] = drop-nil n ∙ sym (drop-nil (suc k + n))
drop-drop n (suc k) (e ∷ es) =
    drop-drop n k es ∙ ap (λ m. drop m (e ∷ es)) {x = suc (k + n)} {y = suc k + n} (omega arith)

-- The logs are the newest of the events, all of them or at least 901, and at most 1000.
record IsNewest (past : List LogEvent) (logs : List ConnectionLog) : Type 0 where
  dropped : ℕ
  dropped_le : dropped ≤ length past
  is_rest : events logs ≡ drop dropped past
  is_bounded : length logs ≤ 1000
  is_long : (dropped ≡ 0) ⊎ (901 ≤ length logs)

add_cases :
    (P : List ConnectionLog → Type 0) (e : LogEvent) (logs : List ConnectionLog)
    → let added = logs ++ record { id = length logs + 1; event = e } ∷ [] in
      (1000 ≤ length logs → P (drop 100 added))
      → (length logs + 1 ≤ 1000 → P added)
      → P (add_connection_log e logs)
unfolding add_connection_log
add_cases P e logs trims keeps =
    let added = logs ++ record { id = length logs + 1; event = e } ∷ [] in
    let size = length-append {0} logs (record { id = length logs + 1; event = e } ∷ []) in
    elim (Bool-cases (ltb 1000 (length added))) [
      | inl t ↦
          subst P (sym (ap (λ b. if b then drop 100 added else added) t))
            (trims (let l = ltb→lt 1000 (length added) t in omega (arith, size)))
      | inr t ↦
          subst P (sym (ap (λ b. if b then drop 100 added else added) t))
            (keeps (let l = ltb-false 1000 (length added) t in omega (arith, size)))
    ]

add-IsNewest :
    (past : List LogEvent) (e : LogEvent) (logs : List ConnectionLog)
    → IsNewest past logs
    → IsNewest (past ++ e ∷ []) (add_connection_log e logs)
add-IsNewest past e logs s =
    let l : ConnectionLog = record { id = length logs + 1; event = e } in
    let rest : events (logs ++ l ∷ []) ≡ drop s.dropped (past ++ e ∷ []) =
      events-append logs (l ∷ [])
      ∙ ap (λ es. es ++ e ∷ []) s.is_rest
      ∙ sym (drop-append s.dropped past (e ∷ []) s.dropped_le) in
    let size = length-append {0} logs (l ∷ []) in
    let past_size = length-append {0} past (e ∷ []) in
    add_cases (IsNewest (past ++ e ∷ [])) e logs
      (λ full. record {
        dropped = s.dropped + 100;
        dropped_le = omega (
          arith,
          sym (length-events logs) ∙ ap length s.is_rest,
          length-drop {0} s.dropped past,
          past_size,
          s.dropped_le,
        );
        is_rest =
            events-drop 100 (logs ++ l ∷ [])
            ∙ ap (drop 100) rest
            ∙ drop-drop 100 s.dropped (past ++ e ∷ []);
        is_bounded = omega (arith, length-drop {0} 100 (logs ++ l ∷ []), size, s.is_bounded);
        is_long = inr (omega (arith, length-drop {0} 100 (logs ++ l ∷ []), size));
      })
      (λ fits. record {
        dropped = s.dropped;
        dropped_le = omega (arith, past_size, s.dropped_le);
        is_rest = rest;
        is_bounded = omega (arith, size);
        is_long = elim s.is_long [ inl e ↦ inl e | inr m ↦ inr (omega (arith, size)) ];
      })

add_all-IsNewest :
    (past : List LogEvent) (logs : List ConnectionLog) (es : List LogEvent)
    → IsNewest past logs
    → IsNewest (past ++ es) (add_all logs es)
add_all-IsNewest past logs [] s = subst (λ p. IsNewest p logs) (sym (append-nil past)) s
add_all-IsNewest past logs (e ∷ es) s =
    subst (λ p. IsNewest p (add_all logs (e ∷ es))) (append_assoc past (e ∷ []) es)
      (add_all-IsNewest (past ++ e ∷ []) (add_connection_log e logs) es
        (add-IsNewest past e logs s))

get_newest :
    (past : List LogEvent) (logs : List ConnectionLog)
    → IsNewest past logs
    → events (get_connection_logs logs) ≡ drop (length past - 100) past
unfolding get_connection_logs
get_newest past logs s =
    let size : length logs ≡ length past - s.dropped =
      sym (length-events logs) ∙ ap length s.is_rest ∙ length-drop {0} s.dropped past in
    elim (Bool-cases (ltb 100 (length logs))) [
      | inl t ↦
          ap (λ b. events (if b then drop (length logs - 100) logs else logs)) t
          ∙ events-drop (length logs - 100) logs
          ∙ ap (drop (length logs - 100)) s.is_rest
          ∙ drop-drop (length logs - 100) s.dropped past
          ∙ ap (λ m. drop m past) {x = s.dropped + (length logs - 100)} {y = length past - 100}
              (let l = ltb→lt 100 (length logs) t in omega (arith, size))
      | inr t ↦
          ap (λ b. events (if b then drop (length logs - 100) logs else logs)) t
          ∙ s.is_rest
          ∙ ap (λ m. drop m past) {x = s.dropped} {y = length past - 100}
              (let l = ltb-false 100 (length logs) t in
                elim s.is_long [ inl e ↦ omega (arith, size) | inr m ↦ absurd (omega arith) ])
    ]

-- Whatever was logged since the start, at most 1000 entries are kept, and `GET /api/v1/logs`
-- answers with the last 100 events, or all if there are fewer, in their order.
pub get_connection_logs_lem :
    (es : List LogEvent)
    → (length (add_all [] es) ≤ 1000)
      × (events (get_connection_logs (add_all [] es)) ≡ drop (length es - 100) es)
get_connection_logs_lem es =
    let s = add_all-IsNewest [] [] es (record {
      dropped = 0;
      dropped_le = omega arith;
      is_rest = refl;
      is_bounded = omega arith;
      is_long = inl refl;
    }) in
    (s.is_bounded, get_newest es (add_all [] es) s)
