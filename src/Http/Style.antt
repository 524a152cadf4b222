-- ===== src/Http/Style.antt =====
-- The texts that all pages of server/src/http_server.c share: CSS_STYLE and build_nav.
use iot_services_monitoring.Common.{[], ◌∷◌}
use iot_services_monitoring.Text.{Text, codes}
use iot_services_monitoring.Config.{concat, snprintf}

unfoldable pub css_style : Text
unfolding concat
css_style = concat (
    codes "<style>"
    ∷ codes ":root { --bg:#0b1220; --panel:#101a2d; --panel-soft:#16233a; --line:#2b3f5f;"
    ∷ codes "        --text:#edf4ff; --muted:#8ea4c5; --cyan:#68d5ff; --amber:#ffc857;"
    ∷ codes "        --good:#52d39a; --bad:#ff7c70; --accent:#7aa2ff; }"
    ∷ codes "* { margin:0; padding:0; box-sizing:border-box; }"
    ∷ codes "body { font-family:'Avenir Next','Helvetica Neue','Segoe UI',sans-serif;"
    ∷ codes
        "       color:var(--text); min-height:100vh; background:radial-gradient(circle at top left,#14304f 0,#0b1220 45%),"
    ∷ codes "       linear-gradient(135deg,#08111f,#0b1220 55%,#0f1a2d); }"
    ∷ codes "body::before { content:''; position:fixed; inset:0; pointer-events:none;"
    ∷ codes "       background-image:linear-gradient(rgba(104,213,255,.08) 1px,transparent 1px),"
    ∷ codes "       linear-gradient(90deg,rgba(104,213,255,.08) 1px,transparent 1px);"
    ∷ codes
        "       background-size:36px 36px; mask-image:linear-gradient(to bottom,rgba(0,0,0,.6),transparent 75%); }"
    ∷ codes "nav { position:sticky; top:0; z-index:5; display:flex; align-items:center; gap:14px;"
    ∷ codes "      padding:18px 28px; background:rgba(6,13,24,.82); backdrop-filter:blur(18px);"
    ∷ codes "      border-bottom:1px solid rgba(122,162,255,.18); }"
    ∷ codes "nav .brand { margin-right:auto; color:#fff; font-size:1.1rem; font-weight:800;"
    ∷ codes "      letter-spacing:.08em; text-transform:uppercase; }"
    ∷ codes
        "nav .brand small { display:block; font-size:.68rem; color:var(--muted); font-weight:600; }"
    ∷ codes "nav a { color:var(--muted); text-decoration:none; font-weight:700; font-size:.93rem;"
    ∷ codes
        "      letter-spacing:.03em; padding:10px 14px; border-radius:999px; border:1px solid transparent;"
    ∷ codes "      transition:all .2s ease; }"
    ∷ codes
        "nav a:hover { color:var(--text); border-color:rgba(122,162,255,.28); background:rgba(122,162,255,.1); }"
    ∷ codes ".container { max-width:1200px; margin:0 auto; padding:36px 24px 64px; }"
    ∷ codes ".hero { display:grid; grid-template-columns:1.5fr 1fr; gap:20px; margin-bottom:24px; }"
    ∷ codes
        ".hero-panel, .card, .stat-card, .info-card { background:linear-gradient(180deg,rgba(19,31,52,.96),rgba(11,20,34,.94));"
    ∷ codes
        "      border:1px solid rgba(122,162,255,.16); border-radius:22px; box-shadow:0 24px 60px rgba(0,0,0,.3); }"
    ∷ codes ".hero-panel { padding:28px; position:relative; overflow:hidden; }"
    ∷ codes
        ".hero-panel::after { content:''; position:absolute; inset:auto -60px -60px auto; width:180px; height:180px;"
    ∷ codes "      background:radial-gradient(circle,rgba(255,200,87,.22),transparent 70%); }"
    ∷ codes
        ".eyebrow { display:inline-flex; align-items:center; gap:10px; padding:8px 12px; border-radius:999px;"
    ∷ codes
        "      background:rgba(104,213,255,.1); color:var(--cyan); font-size:.78rem; font-weight:800; letter-spacing:.08em;"
    ∷ codes "      text-transform:uppercase; margin-bottom:18px; }"
    ∷ codes
        "h1 { font-size:clamp(2rem,4vw,3.4rem); line-height:1; margin-bottom:14px; letter-spacing:-.04em; }"
    ∷ codes "h2 { font-size:1.45rem; margin-bottom:10px; }"
    ∷ codes "p { color:var(--muted); line-height:1.6; }"
    ∷ codes ".hero-copy { max-width:42rem; }"
    ∷ codes
        ".hero-grid { display:grid; grid-template-columns:repeat(2,minmax(0,1fr)); gap:14px; margin-top:24px; }"
    ∷ codes
        ".mini-panel { padding:16px; border-radius:18px; background:rgba(255,255,255,.03); border:1px solid rgba(255,255,255,.06); }"
    ∷ codes
        ".mini-panel strong { display:block; color:var(--text); margin-bottom:4px; font-size:1.2rem; }"
    ∷ codes ".card { padding:24px; margin-bottom:20px; }"
    ∷ codes
        ".card-title { display:flex; align-items:flex-end; justify-content:space-between; gap:12px; margin-bottom:18px; }"
    ∷ codes ".card-title p { max-width:44rem; }"
    ∷ codes
        ".stats { display:grid; grid-template-columns:repeat(auto-fit,minmax(180px,1fr)); gap:16px; margin-bottom:24px; }"
    ∷ codes ".stat-card { padding:22px; position:relative; overflow:hidden; }"
    ∷ codes
        ".stat-card::before { content:''; position:absolute; inset:0 auto 0 0; width:4px; background:linear-gradient(180deg,var(--cyan),var(--amber)); }"
    ∷ codes
        ".stat-card .number { font-size:2.4rem; font-weight:800; letter-spacing:-.05em; color:var(--text); }"
    ∷ codes
        ".stat-card .label { color:var(--muted); text-transform:uppercase; letter-spacing:.08em; font-size:.74rem; margin-top:8px; }"
    ∷ codes ".stat-card .delta { color:var(--cyan); font-size:.82rem; margin-top:10px; }"
    ∷ codes
        ".info-grid { display:grid; grid-template-columns:repeat(auto-fit,minmax(260px,1fr)); gap:18px; margin-top:18px; }"
    ∷ codes ".info-card { padding:20px; }"
    ∷ codes ".info-card ul { list-style:none; margin-top:12px; }"
    ∷ codes
        ".info-card li { color:var(--muted); padding:8px 0; border-bottom:1px solid rgba(255,255,255,.06); }"
    ∷ codes ".info-card li:last-child { border-bottom:none; }"
    ∷ codes
        ".table-wrap { overflow:auto; border-radius:18px; border:1px solid rgba(255,255,255,.06); }"
    ∷ codes "table { width:100%; border-collapse:collapse; min-width:720px; }"
    ∷ codes
        "th { padding:14px 16px; text-align:left; font-size:.78rem; letter-spacing:.08em; text-transform:uppercase;"
    ∷ codes "     color:var(--cyan); background:rgba(8,17,31,.88); }"
    ∷ codes "td { padding:14px 16px; border-top:1px solid rgba(255,255,255,.06); color:#d6e4fb; }"
    ∷ codes "tr:hover td { background:rgba(122,162,255,.06); }"
    ∷ codes
        ".badge { display:inline-flex; align-items:center; justify-content:center; padding:6px 12px; border-radius:999px;"
    ∷ codes
        "      font-size:.78rem; font-weight:800; letter-spacing:.05em; text-transform:uppercase; }"
    ∷ codes ".badge-active, .badge-normal { background:rgba(82,211,154,.14); color:var(--good); }"
    ∷ codes ".badge-inactive, .badge-alert { background:rgba(255,124,112,.14); color:var(--bad); }"
    ∷ codes ".badge-accent { background:rgba(255,200,87,.14); color:var(--amber); }"
    ∷ codes ".login-box { max-width:460px; margin:0 auto; text-align:left; }"
    ∷ codes ".login-box form { margin-top:22px; }"
    ∷ codes
        ".login-box input[type=text] { width:100%; margin-bottom:14px; padding:14px 16px; border-radius:14px;"
    ∷ codes
        "      border:1px solid rgba(122,162,255,.22); background:rgba(255,255,255,.04); color:var(--text); font-size:1rem; }"
    ∷ codes
        ".login-box button, .cta-link { display:inline-flex; align-items:center; justify-content:center; gap:8px;"
    ∷ codes
        "      padding:13px 20px; border:none; border-radius:999px; cursor:pointer; font-weight:800; font-size:.95rem;"
    ∷ codes
        "      color:#06111d; background:linear-gradient(135deg,var(--amber),#ff9d5c); text-decoration:none; box-shadow:0 12px 30px rgba(255,157,92,.22); }"
    ∷ codes ".login-box button:hover, .cta-link:hover { filter:brightness(1.05); }"
    ∷ codes ".msg-ok { color:var(--good); margin:18px 0; }"
    ∷ codes ".msg-error { color:var(--bad); margin:18px 0; }"
    ∷ codes
        ".empty-state { padding:28px; border:1px dashed rgba(122,162,255,.24); border-radius:18px; color:var(--muted); }"
    ∷ codes ".footer-note { margin-top:16px; font-size:.84rem; color:var(--muted); }"
    ∷ codes
        "@media (max-width: 820px) { .hero { grid-template-columns:1fr; } nav { flex-wrap:wrap; } .container { padding:24px 16px 48px; } }"
    ∷ codes "</style>"
    ∷ [])

unfoldable pub build_nav : Text
unfolding concat
build_nav = snprintf 1024 (
    codes "<nav>"
    ∷ codes "<span class='brand'>IoT Monitor<small>Operator console</small></span>"
    ∷ codes "<a href='/'>Inicio</a>"
    ∷ codes "<a href='/dashboard'>Dashboard</a>"
    ∷ codes "<a href='/sensors'>Sensores</a>"
    ∷ codes "<a href='/alerts'>Alertas</a>"
    ∷ codes "<a href='/metrics'>M&eacute;tricas</a>"
    ∷ codes "</nav>"
    ∷ [])
