-- ===== src/Command.antt =====
-- The command line: `run` of src/main.rs, up to the interpreter. The files are a parameter; `show` is
-- Rust's decimal form of a number.
use Prim.Native.String as Text
use net_lang.Prelude.{ℕ, String, Bool, true, ◌||◌, List, [], ◌∷◌, if◌then◌else◌}
use net_lang.Prelude.Text.{str_eq}
use net_lang.Ast.{Program}
use net_lang.Lexer.Token.{Token}
use net_lang.Lexer.Stream.{Bridge, Lexer, LexerError, Scan, new_lexer, tokenize}
use net_lang.Parser.State.{Outcome, Input, Cursor, Reader, new_parser}
use net_lang.Parser.Statement.{parse_program}
use net_lang.Parser.Reads.Programs.{start}
use net_lang.Runtime.Host.{Reply}
use net_lang.Semantic.Analyzer.{SemanticError}
use net_lang.Semantic.Program.{analyze}
use net_lang.Diagnostic.{render, render_span}

-- What a command comes to: its output before it is printed, or the text of an error. The last two
-- are a panic, and the model's own lack of fuel.
pub data Report : Type 0 where
  usage : Report
  wrong_usage : Report
  tokens : List Token → Report
  tree : Program → Report
  accepted : Report
  rejected : List SemanticError → Report
  -- The program that is handed to the interpreter.
  to_run : Program → Report
  failed : String → Report
  panicked out_of_fuel : Report

-- A stage of the front end.
pub data Stage (A : Type 0) : Type 0 where
  next : A → Stage A
  stop : Report → Stage A

abbrev pub then_stage : {A : Type 0} → Stage A → (A → Report) → Report
then_stage (next a) f = f a
then_stage (stop r) f = r

module _ {S : Type 0} (bridge : Bridge S) (reader : Reader) (show : ℕ → String) (fuel : ℕ) where
  module _ (filename source : String) where
    abbrev pub of_lexer_error : LexerError → Report
    of_lexer_error e = Report.failed (render show filename source e.line e.column e.message)

    abbrev pub of_scan : Scan (List Token) → Stage (List Token)
    of_scan (Scan.ok ts) = next ts
    of_scan (Scan.err e) = stop (of_lexer_error e)
    of_scan Scan.out_of_fuel = stop out_of_fuel

    abbrev pub scan_with : Scan (Lexer S) → Stage (List Token)
    scan_with (Scan.ok lexer) = of_scan (tokenize bridge fuel lexer)
    scan_with (Scan.err e) = stop (of_lexer_error e)
    scan_with Scan.out_of_fuel = stop out_of_fuel

    -- `Lexer::new(&source).and_then(Lexer::tokenize)`.
    unfoldable pub scan_source : Stage (List Token)
    scan_source = scan_with (new_lexer bridge (reader.utf8 source))

    abbrev pub of_parse : Outcome Program × Cursor → Stage Program
    of_parse (Outcome.ok program, s) = next program
    of_parse (Outcome.err e, s) =
        stop (Report.failed (render_span show filename source e.span e.message))
    of_parse (Outcome.panicked, s) = stop panicked
    of_parse (Outcome.out_of_fuel, s) = stop out_of_fuel

    abbrev pub parse_with : Outcome Input → Stage Program
    parse_with (Outcome.ok i) = of_parse (parse_program reader i start)
    parse_with (Outcome.err e) =
        stop (Report.failed (render_span show filename source e.span e.message))
    parse_with Outcome.panicked = stop panicked
    parse_with Outcome.out_of_fuel = stop out_of_fuel

    -- `Parser::new(tokens).and_then(|parser| parser.with_spans().parse_program())`.
    unfoldable pub parse_tokens : List Token → Stage Program
    parse_tokens ts = parse_with (new_parser reader.utf8 ts true)

    abbrev pub check_program : ℕ → Program → Report
    check_program identity program = elim (analyze identity program) [
      | [] ↦ accepted
      | e ∷ es ↦ rejected (e ∷ es)
    ]

    abbrev pub run_program : ℕ → String → Program → Report
    run_program identity command program =
        if str_eq command "check"
        then check_program identity program
        else if str_eq command "run"
        then to_run program
        else tree program

    unfoldable pub run_source : ℕ → String → Report
    run_source identity command = then_stage scan_source λ ts.
        if str_eq command "tokens"
        then tokens ts
        else then_stage (parse_tokens ts) (run_program identity command)

  abbrev pub run_read : ℕ → String → String → Reply String → Report
  run_read identity command filename (Reply.ok source) = run_source filename source identity command
  run_read identity command filename (Reply.err e) =
      Report.failed
        (Text.◌++◌ "error: cannot read " (Text.◌++◌ filename (Text.◌++◌ ": " (Text.◌++◌ e "\n"))))

  abbrev pub is_command : String → Bool
  is_command c = str_eq c "tokens" || str_eq c "ast" || str_eq c "check" || str_eq c "run"

  -- `read` reads a file; `identity` is the number of the registry's allocation.
  unfoldable pub run : (String → Reply String) → ℕ → List String → Report
  run read identity [] = wrong_usage
  run read identity (a ∷ []) = if str_eq a "--help" || str_eq a "-h" then usage else wrong_usage
  run read identity (command ∷ filename ∷ []) =
      if is_command command then run_read identity command filename (read filename) else wrong_usage
  run read identity (_ ∷ _ ∷ _ ∷ _) = wrong_usage
