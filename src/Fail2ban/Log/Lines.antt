-- ===== src/Fail2ban/Log/Lines.antt =====
-- Which lines are split, and into what.
use mailserver_ui.Common.{String, true, false, some, ◌≡◌, ◌↔◌, refl, ◌∙◌, ◌+++◌, is_space, not}
use mathlib.Core.Path.{subst}
use mailserver_ui.Fail2ban.Scan.{
  is_digit, is_solid, begins, every, is_run, is_terminator, shape, fits_shape, line_rest,
}
use mailserver_ui.Fail2ban.Scan.Laws.{shape_iff}
use mailserver_ui.Fail2ban.Scan.Rules.{
  >>=-some, begins_run, space_solid, solid_space, begins_literal, after_run, after_literal,
  run_elim, literal_elim, shape_elim, line_rest_elim,
}
use mailserver_ui.Fail2ban.Log.{LogFields, timestamp_shape, split_line}

-- The white space between the fields.
pub record Gaps : Type 0 where
  pub after_timestamp : String
  pub after_logger : String
  pub after_pid : String
  pub after_level : String

-- A line as fail2ban writes it.
abbrev pub line_text : LogFields → Gaps → String
line_text f g =
    f.timestamp +++ g.after_timestamp +++ f.logger +++ g.after_logger +++ "[" +++ f.pid +++ "]:"
    +++ g.after_pid +++ f.level +++ g.after_level +++ f.message

-- The timestamp has its shape, the logger and the level are words, the process id is a number, the
-- message is one line without leading space, and each gap is white space.
pub record IsLine (f : LogFields) (g : Gaps) : Type 0 where
  pub timed : fits_shape timestamp_shape f.timestamp ≡ true
  pub logged : is_run is_solid f.logger ≡ true
  pub numbered : is_run is_digit f.pid ≡ true
  pub levelled : is_run is_solid f.level ≡ true
  pub one_line : every (λ c. not (is_terminator c)) f.message ≡ true
  pub stripped : begins is_space f.message ≡ false
  pub gap_timestamp : is_run is_space g.after_timestamp ≡ true
  pub gap_logger : is_run is_space g.after_logger ≡ true
  pub gap_pid : is_run is_space g.after_pid ≡ true
  pub gap_level : is_run is_space g.after_level ≡ true

-- Every line as fail2ban writes it is split into its fields.
split_line_complete :
    (f : LogFields) (g : Gaps) → IsLine f g → split_line (line_text f g) ≡ some (f, "")
unfolding split_line line_rest
split_line_complete f g v =
    >>=-some (shape timestamp_shape) _ _ f.timestamp _
      ((shape_iff timestamp_shape _ f.timestamp _).1 (v.timed, refl))
    ∙ after_run is_space _ g.after_timestamp _ v.gap_timestamp
        (begins_run is_space is_solid f.logger _ space_solid v.logged)
    ∙ after_run is_solid _ f.logger _ v.logged
        (begins_run is_solid is_space g.after_logger _ solid_space v.gap_logger)
    ∙ after_run is_space _ g.after_logger _ v.gap_logger (
        begins_literal is_space "[" ""
          (f.pid +++ "]:" +++ g.after_pid +++ f.level +++ g.after_level +++ f.message) refl)
    ∙ after_literal "[" _ _
    ∙ after_run is_digit _ f.pid _ v.numbered (
        begins_literal is_digit "]" ":" (g.after_pid +++ f.level +++ g.after_level +++ f.message)
          refl)
    ∙ after_literal "]:" _ _
    ∙ after_run is_space _ g.after_pid _ v.gap_pid
        (begins_run is_space is_solid f.level _ space_solid v.levelled)
    ∙ after_run is_solid _ f.level _ v.levelled
        (begins_run is_solid is_space g.after_level _ solid_space v.gap_level)
    ∙ after_run is_space _ g.after_level f.message v.gap_level v.stripped
    ∙ >>=-some line_rest _ f.message f.message "" (rw v.one_line refl)

-- What is split is a line as fail2ban writes it, to its end.
split_line_sound :
    (raw : String) (b : LogFields × String)
    → split_line raw ≡ some b
    → (g : Gaps) × IsLine b.0 g × (raw ≡ line_text b.0 g) × (b.1 ≡ "")
unfolding split_line
split_line_sound raw b h = shape_elim timestamp_shape _ raw b h λ ts s1 timed e0 h1.
    run_elim is_space _ s1 b h1 λ g1 s2 r1 n1 e1 h2.
      run_elim is_solid _ s2 b h2 λ logger s3 r2 n2 e2 h3.
        run_elim is_space _ s3 b h3 λ g2 s4 r3 n3 e3 h4. literal_elim "[" _ s4 b h4 λ s5 e4 h5.
          run_elim is_digit _ s5 b h5 λ pid s6 r4 n4 e5 h6. literal_elim "]:" _ s6 b h6 λ s7 e6 h7.
            run_elim is_space _ s7 b h7 λ g3 s8 r5 n5 e7 h8.
              run_elim is_solid _ s8 b h8 λ level s9 r6 n6 e8 h9.
                run_elim is_space _ s9 b h9 λ g4 s10 r7 stop e9 h10.
                  line_rest_elim _ s10 b h10 λ kept h11.
                    let fields : LogFields = record {
                      timestamp = ts;
                      logger = logger;
                      pid = pid;
                      level = level;
                      message = s10;
                    } in
                    let gaps : Gaps = record {
                      after_timestamp = g1;
                      after_logger = g2;
                      after_pid = g3;
                      after_level = g4;
                    } in
                    let found : (fields, "") ≡ b = cc in
                    subst
                      (λ (x : LogFields × String).
                        (g : Gaps) × IsLine x.0 g × (raw ≡ line_text x.0 g) × (x.1 ≡ ""))
                      found
                      (
                        gaps,
                        record {
                          timed = timed;
                          logged = r2;
                          numbered = r4;
                          levelled = r6;
                          one_line = kept;
                          stripped = stop;
                          gap_timestamp = r1;
                          gap_logger = r3;
                          gap_pid = r5;
                          gap_level = r7;
                        },
                        rw (e0, e1, e2, e3, e4, e5, e6, e7, e8, e9),
                        refl,
                      )

-- A line is split into given fields exactly if it is those fields, each of its kind, with white space
-- in the gaps: what is printed in that form is read back, and nothing else is accepted.
pub split_line_iff :
    (raw : String) (f : LogFields)
    → (split_line raw ≡ some (f, "")) ↔ ((g : Gaps) × IsLine f g × (raw ≡ line_text f g))
split_line_iff raw f = (sound, complete)
  where
    sound : split_line raw ≡ some (f, "") → (g : Gaps) × IsLine f g × (raw ≡ line_text f g)
    sound h = let (g, v, e, _) = split_line_sound raw (f, "") h in (g, v, e)

    complete : (g : Gaps) × IsLine f g × (raw ≡ line_text f g) → split_line raw ≡ some (f, "")
    complete (g, v, e) = rw e (split_line_complete f g v)
