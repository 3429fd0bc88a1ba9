-- ===== src/Rdp/Settings.antt =====
-- The settings of cmd/rdpgw/rdp/rdp.go: the fields of RdpSettings with their names, kinds, tags and defaults.
use home_rdp_gateway.Base.{List, [], ◌∷◌, ◌++◌}
use home_rdp_gateway.Base.Texts.{Text, codes}

-- The kinds of the fields.
pub data Kind : Type 0 where
  a_bool an_int a_string : Kind

-- A field: its name, its kind, and what its tags `rdp` and `default` say.
pub record Field : Type 0 where
  pub name : Text
  pub kind : Kind
  pub tag : Text
  pub default : Text

abbrev field : Text → Kind → Text → Text → Field
field name kind tag default = record { name = name; kind = kind; tag = tag; default = default }

abbrev first_fields : List Field
first_fields =
    field (codes "AllowFontSmoothing") a_bool (codes "allow font smoothing") (codes "0")
    ∷ field (codes "AllowDesktopComposition") a_bool (codes "allow desktop composition") (codes "0")
    ∷ field (codes "DisableFullWindowDrag") a_bool (codes "disable full window drag") (codes "0")
    ∷ field (codes "DisableMenuAnims") a_bool (codes "disable menu anims") (codes "0")
    ∷ field (codes "DisableThemes") a_bool (codes "disable themes") (codes "0")
    ∷ field (codes "DisableCursorSetting") a_bool (codes "disable cursor setting") (codes "0")
    ∷ field (codes "GatewayHostname") a_string (codes "gatewayhostname") (codes "")
    ∷ field (codes "FullAddress") a_string (codes "full address") (codes "")
    ∷ field (codes "AlternateFullAddress") a_string (codes "alternate full address") (codes "")
    ∷ field (codes "Username") a_string (codes "username") (codes "")
    ∷ field (codes "Domain") a_string (codes "domain") (codes "")
    ∷ field (codes "GatewayCredentialsSource") an_int (codes "gatewaycredentialssource") (codes "0")
    ∷ field (codes "GatewayCredentialMethod") an_int (codes "gatewayprofileusagemethod") (codes "0")
    ∷ field (codes "GatewayUsageMethod") an_int (codes "gatewayusagemethod") (codes "0")
    ∷ field (codes "GatewayAccessToken") a_string (codes "gatewayaccesstoken") (codes "")
    ∷ field (codes "PromptCredentialsOnce") a_bool (codes "promptcredentialonce") (codes "true")
    ∷ field (codes "AuthenticationLevel") an_int (codes "authentication level") (codes "3")
    ∷ field (codes "EnableCredSSPSupport") a_bool (codes "enablecredsspsupport") (codes "true")
    ∷ field (codes "EnableRdsAasAuth") a_bool (codes "enablerdsaadauth") (codes "false")
    ∷ field (codes "DisableConnectionSharing") a_bool (codes "disableconnectionsharing")
        (codes "false")
    ∷ field (codes "AlternateShell") a_string (codes "alternate shell") (codes "")
    ∷ field (codes "AutoReconnectionEnabled") a_bool (codes "autoreconnection enabled")
        (codes "true")
    ∷ field (codes "BandwidthAutodetect") a_bool (codes "bandwidthautodetect") (codes "true")
    ∷ field (codes "NetworkAutodetect") a_bool (codes "networkautodetect") (codes "true")
    ∷ field (codes "Compression") a_bool (codes "compression") (codes "true")
    ∷ field (codes "VideoPlaybackMode") a_bool (codes "videoplaybackmode") (codes "true")
    ∷ field (codes "ConnectionType") an_int (codes "connection type") (codes "2")
    ∷ field (codes "AudioCaptureMode") a_bool (codes "audiocapturemode") (codes "false")
    ∷ field (codes "EncodeRedirectedVideoCapture") a_bool (codes "encode redirected video capture")
        (codes "true")
    ∷ field (codes "RedirectedVideoCaptureEncodingQuality") an_int
        (codes "redirected video capture encoding quality") (codes "0")
    ∷ field (codes "AudioMode") an_int (codes "audiomode") (codes "0")
    ∷ []

abbrev last_fields : List Field
last_fields =
    field (codes "CameraStoreRedirect") a_string (codes "camerastoredirect") (codes "false")
    ∷ field (codes "DeviceStoreRedirect") a_string (codes "devicestoredirect") (codes "false")
    ∷ field (codes "DriveStoreRedirect") a_string (codes "drivestoredirect") (codes "false")
    ∷ field (codes "KeyboardHook") an_int (codes "keyboardhook") (codes "2")
    ∷ field (codes "RedirectClipboard") a_bool (codes "redirectclipboard") (codes "true")
    ∷ field (codes "RedirectComPorts") a_bool (codes "redirectcomports") (codes "false")
    ∷ field (codes "RedirectLocation") a_bool (codes "redirectlocation") (codes "false")
    ∷ field (codes "RedirectPrinters") a_bool (codes "redirectprinters") (codes "true")
    ∷ field (codes "RedirectSmartcards") a_bool (codes "redirectsmartcards") (codes "true")
    ∷ field (codes "RedirectWebAuthn") a_bool (codes "redirectwebauthn") (codes "true")
    ∷ field (codes "UsbDeviceStoRedirect") a_string (codes "usbdevicestoredirect") (codes "")
    ∷ field (codes "UseMultimon") a_bool (codes "use multimon") (codes "false")
    ∷ field (codes "SelectedMonitors") a_string (codes "selectedmonitors") (codes "")
    ∷ field (codes "MaximizeToCurrentDisplays") a_bool (codes "maximizetocurrentdisplays")
        (codes "false")
    ∷ field (codes "SingleMonInWindowedMode") a_bool (codes "singlemoninwindowedmode") (codes "0")
    ∷ field (codes "ScreenModeId") an_int (codes "screen mode id") (codes "2")
    ∷ field (codes "SmartSizing") a_bool (codes "smart sizing") (codes "false")
    ∷ field (codes "DynamicResolution") a_bool (codes "dynamic resolution") (codes "true")
    ∷ field (codes "DesktopSizeId") an_int (codes "desktop size id") (codes "")
    ∷ field (codes "DesktopHeight") an_int (codes "desktopheight") (codes "")
    ∷ field (codes "DesktopWidth") an_int (codes "desktopwidth") (codes "")
    ∷ field (codes "DesktopScaleFactor") an_int (codes "desktopscalefactor") (codes "")
    ∷ field (codes "BitmapCacheSize") an_int (codes "bitmapcachesize") (codes "1500")
    ∷ field (codes "BitmapCachePersistEnable") a_bool (codes "bitmapcachepersistenable")
        (codes "true")
    ∷ field (codes "RemoteApplicationCmdLine") a_string (codes "remoteapplicationcmdline")
        (codes "")
    ∷ field (codes "RemoteAppExpandWorkingDir") a_bool (codes "remoteapplicationexpandworkingdir")
        (codes "true")
    ∷ field (codes "RemoteApplicationFile") a_string (codes "remoteapplicationfile") (codes "true")
    ∷ field (codes "RemoteApplicationIcon") a_string (codes "remoteapplicationicon") (codes "")
    ∷ field (codes "RemoteApplicationMode") a_bool (codes "remoteapplicationmode") (codes "false")
    ∷ field (codes "RemoteApplicationName") a_string (codes "remoteapplicationname") (codes "")
    ∷ field (codes "RemoteApplicationProgram") a_string (codes "remoteapplicationprogram")
        (codes "")
    ∷ []

abbrev pub rdp_fields : List Field
rdp_fields = first_fields ++ last_fields
