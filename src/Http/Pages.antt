-- ===== src/Http/Pages.antt =====
-- The pages of server/src/http_server.c that have no table.
use iot_services_monitoring.Common.{ℕ, [], ◌∷◌}
use iot_services_monitoring.Text.{Text, codes, decimal}
use iot_services_monitoring.Config.{http_response_max, concat, snprintf}
use iot_services_monitoring.Http.Style.{css_style, build_nav}

unfoldable pub home_page : Text
unfolding concat
home_page = snprintf http_response_max (
    codes "<!DOCTYPE html><html><head>"
    ∷ codes "<meta charset='UTF-8'>"
    ∷ codes "<title>IoT Services Monitoring</title>"
    ∷ css_style
    ∷ codes "</head><body>"
    ∷ build_nav
    ∷ codes "<div class='container'>"
    ∷ codes "<div class='hero'>"
    ∷ codes "<section class='hero-panel'>"
    ∷ codes "<div class='eyebrow'>Centro de operaciones</div>"
    ∷ codes "<h1>Monitoreo industrial para operadores en tiempo real</h1>"
    ∷ codes
        "<p class='hero-copy'>Supervisa el pulso de la red IoT, detecta anomal&iacute;as y accede al estado operativo de sensores desde una consola clara y enfocada en respuesta r&aacute;pida.</p>"
    ∷ codes "<div class='hero-grid'>"
    ∷ codes
        "<div class='mini-panel'><strong>Sensores</strong><span>Vista operativa de TEMP, VIB y POWER.</span></div>"
    ∷ codes
        "<div class='mini-panel'><strong>Alertas</strong><span>Umbrales visibles y trazabilidad de incidentes.</span></div>"
    ∷ codes
        "<div class='mini-panel'><strong>M&eacute;tricas</strong><span>Registro continuo con &uacute;ltimo valor y timestamp.</span></div>"
    ∷ codes
        "<div class='mini-panel'><strong>HTTP + TCP</strong><span>Operaci&oacute;n integrada con panel y protocolo SMP.</span></div>"
    ∷ codes "</div>"
    ∷ codes "</section>"
    ∷ codes "<aside class='hero-panel login-box'>"
    ∷ codes "<div class='eyebrow'>Acceso seguro</div>"
    ∷ codes "<h2>Ingresar como operador</h2>"
    ∷ codes "<p>Escribe tu usuario para validar acceso y abrir el panel de supervisi&oacute;n.</p>"
    ∷ codes "<form action='/login' method='get'>"
    ∷ codes "<input type='text' name='user' placeholder='Usuario operador' required>"
    ∷ codes "<button type='submit'>Entrar al panel</button>"
    ∷ codes "</form>"
    ∷ codes
        "<p class='footer-note'>Si el auth service no est&aacute; disponible, ver&aacute;s una respuesta expl&iacute;cita del sistema.</p>"
    ∷ codes "</aside>"
    ∷ codes "</div>"
    ∷ codes "</div>"
    ∷ codes "</body></html>"
    ∷ [])

unfoldable pub missing_user_page : Text
unfolding concat
missing_user_page = snprintf http_response_max (
    codes "<!DOCTYPE html><html><head>"
    ∷ codes "<meta charset='UTF-8'><title>Error</title>"
    ∷ css_style
    ∷ codes "</head><body>"
    ∷ build_nav
    ∷ codes "<div class='container'>"
    ∷ codes "<div class='card'>"
    ∷ codes "<p class='msg-error'>&#x26A0; Debes proporcionar un usuario: "
    ∷ codes "/login?user=nombre</p>"
    ∷ codes "<a href='/'>&#x2190; Volver al inicio</a>"
    ∷ codes "</div></div></body></html>"
    ∷ [])

unfoldable pub auth_error_page : Text → Text
unfolding concat
auth_error_page error_msg = snprintf http_response_max (
    codes "<!DOCTYPE html><html><head>"
    ∷ codes "<meta charset='UTF-8'><title>Error de Autenticaci&oacute;n</title>"
    ∷ css_style
    ∷ codes "</head><body>"
    ∷ build_nav
    ∷ codes "<div class='container'>"
    ∷ codes "<div class='card'>"
    ∷ codes "<h1>&#x26A0; Error del servicio de autenticaci&oacute;n</h1>"
    ∷ codes "<p class='msg-error'>"
    ∷ error_msg
    ∷ codes "</p>"
    ∷ codes "<p>El servidor de autenticaci&oacute;n no est&aacute; disponible. "
    ∷ codes "Intenta m&aacute;s tarde.</p>"
    ∷ codes "<a href='/'>&#x2190; Volver al inicio</a>"
    ∷ codes "</div></div></body></html>"
    ∷ [])

unfoldable pub denied_page : Text → Text
unfolding concat
denied_page username = snprintf http_response_max (
    codes "<!DOCTYPE html><html><head>"
    ∷ codes "<meta charset='UTF-8'><title>Acceso Denegado</title>"
    ∷ css_style
    ∷ codes "</head><body>"
    ∷ build_nav
    ∷ codes "<div class='container'>"
    ∷ codes "<div class='card'>"
    ∷ codes "<h1>&#x1F6AB; Acceso Denegado</h1>"
    ∷ codes "<p class='msg-error'>El usuario <strong>"
    ∷ username
    ∷ codes "</strong> "
    ∷ codes "no est&aacute; registrado en el sistema.</p>"
    ∷ codes "<a href='/'>&#x2190; Volver al inicio</a>"
    ∷ codes "</div></div></body></html>"
    ∷ [])

unfoldable pub welcome_page : Text → Text → Text
unfolding concat
welcome_page username role = snprintf http_response_max (
    codes "<!DOCTYPE html><html><head>"
    ∷ codes "<meta charset='UTF-8'><title>Bienvenido</title>"
    ∷ css_style
    ∷ codes "</head><body>"
    ∷ build_nav
    ∷ codes "<div class='container'>"
    ∷ codes "<div class='card'>"
    ∷ codes "<h1>&#x2705; Bienvenido, "
    ∷ username
    ∷ codes "</h1>"
    ∷ codes "<p>Rol: <strong>"
    ∷ role
    ∷ codes "</strong></p>"
    ∷ codes "<p>Accede al panel de monitoreo desde la barra de navegaci&oacute;n.</p>"
    ∷ codes "</div></div></body></html>"
    ∷ [])

unfoldable pub dashboard_page : ℕ → ℕ → ℕ → ℕ → Text
unfolding concat
dashboard_page total active alerts metrics = snprintf http_response_max (
    codes "<!DOCTYPE html><html><head>"
    ∷ codes "<meta charset='UTF-8'><title>Dashboard</title>"
    ∷ css_style
    ∷ codes "</head><body>"
    ∷ build_nav
    ∷ codes "<div class='container'>"
    ∷ codes "<div class='hero'>"
    ∷ codes "<section class='hero-panel'>"
    ∷ codes "<div class='eyebrow'>Dashboard operativo</div>"
    ∷ codes "<h1>Estado general de la instalaci&oacute;n</h1>"
    ∷ codes
        "<p class='hero-copy'>Lectura r&aacute;pida del sistema para turnos operativos: sensores registrados, actividad actual, incidentes y flujo de telemetr&iacute;a acumulado.</p>"
    ∷ codes "</section>"
    ∷ codes "<aside class='hero-panel'>"
    ∷ codes "<div class='eyebrow'>Prioridad</div>"
    ∷ codes "<h2>Foco actual</h2>"
    ∷ codes
        "<p>Usa Sensores para revisar estado individual, Alertas para incidentes y M&eacute;tricas para la trazabilidad reciente.</p>"
    ∷ codes
        "<div class='footer-note'>HTTP en 8080 y SMP en 9090 seg&uacute;n configuraci&oacute;n actual del servidor.</div>"
    ∷ codes "</aside>"
    ∷ codes "</div>"
    ∷ codes "<div class='stats'>"
    ∷ codes "<div class='stat-card'>"
    ∷ codes "  <div class='number'>"
    ∷ decimal total
    ∷ codes "</div>"
    ∷ codes "  <div class='label'>Sensores Registrados</div>"
    ∷ codes "  <div class='delta'>Inventario total conocido</div>"
    ∷ codes "</div>"
    ∷ codes "<div class='stat-card'>"
    ∷ codes "  <div class='number'>"
    ∷ decimal active
    ∷ codes "</div>"
    ∷ codes "  <div class='label'>Sensores Activos</div>"
    ∷ codes "  <div class='delta'>Con sesi&oacute;n SMP abierta</div>"
    ∷ codes "</div>"
    ∷ codes "<div class='stat-card'>"
    ∷ codes "  <div class='number'>"
    ∷ decimal alerts
    ∷ codes "</div>"
    ∷ codes "  <div class='label'>Alertas Registradas</div>"
    ∷ codes "  <div class='delta'>Eventos fuera de umbral</div>"
    ∷ codes "</div>"
    ∷ codes "<div class='stat-card'>"
    ∷ codes "  <div class='number'>"
    ∷ decimal metrics
    ∷ codes "</div>"
    ∷ codes "  <div class='label'>M&eacute;tricas Recibidas</div>"
    ∷ codes "  <div class='delta'>Telemetr&iacute;a acumulada</div>"
    ∷ codes "</div>"
    ∷ codes "</div>"
    ∷ codes "<div class='info-grid'>"
    ∷ codes "<section class='info-card'>"
    ∷ codes "<h2>Lectura recomendada</h2>"
    ∷ codes "<ul>"
    ∷ codes "<li>Si alertas sube y activos cae, revisa desconexiones o QUIT de sensores.</li>"
    ∷ codes "<li>Valores an&oacute;malos actualizan el nivel ALERT del sensor inmediatamente.</li>"
    ∷ codes "<li>El dashboard resume el sistema; el detalle fino est&aacute; en las tablas.</li>"
    ∷ codes "</ul>"
    ∷ codes "</section>"
    ∷ codes "<section class='info-card'>"
    ∷ codes "<h2>Accesos r&aacute;pidos</h2>"
    ∷ codes "<ul>"
    ∷ codes "<li><a class='cta-link' href='/sensors'>Revisar sensores</a></li>"
    ∷ codes "<li><a class='cta-link' href='/alerts'>Abrir alertas</a></li>"
    ∷ codes "<li><a class='cta-link' href='/metrics'>Ver m&eacute;tricas</a></li>"
    ∷ codes "</ul>"
    ∷ codes "</section>"
    ∷ codes "</div>"
    ∷ codes "</div></body></html>"
    ∷ [])

unfoldable pub not_found_page : Text
unfolding concat
not_found_page = snprintf http_response_max (
    codes "<!DOCTYPE html><html><head>"
    ∷ codes "<meta charset='UTF-8'><title>404</title>"
    ∷ css_style
    ∷ codes "</head><body>"
    ∷ build_nav
    ∷ codes "<div class='container'>"
    ∷ codes "<div class='hero-panel'>"
    ∷ codes "<div class='eyebrow'>Ruta no disponible</div>"
    ∷ codes "<h1>404 &mdash; P&aacute;gina no encontrada</h1>"
    ∷ codes "<p>La ruta solicitada no existe dentro de la consola de operadores.</p>"
    ∷ codes "<p class='footer-note'><a class='cta-link' href='/'>Volver al inicio</a></p>"
    ∷ codes "</div></div></body></html>"
    ∷ [])
